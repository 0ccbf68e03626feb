-- ===== src/Server/Examples/Codec.antt =====
-- A way to write values that is read back, to stand for the JSON of the tests.
use rustsync.Base.{
  ℕ, zero, suc, Bytes, List, [], ◌∷◌, ◌++◌, Option, none, some, ◌≡◌, refl, sym, ap, length, subst,
}
use mathlib.Core.Option.{some-injective}

pub record Codec {ℓ} (A : Type ℓ) : Type ℓ where
  pub encode : A → Bytes
  pub decode : Bytes → Option (A × Bytes)
  pub round : (a : A) (rest : Bytes) → decode (encode a ++ rest) ≡ some (a, rest)

append-append : (a b rest : Bytes) → (a ++ b) ++ rest ≡ a ++ (b ++ rest)
append-append [] b rest = refl
append-append (x ∷ a) b rest = ap (λ r. x ∷ r) (append-append a b rest)

append-empty : (a : Bytes) → a ++ [] ≡ a
append-empty [] = refl
append-empty (x ∷ a) = ap (λ r. x ∷ r) (append-empty a)

abbrev decode_nat : Bytes → Option (ℕ × Bytes)
decode_nat [] = none
decode_nat (n ∷ rest) = some (n, rest)

abbrev pub nat : Codec ℕ
nat = record { encode = λ n. n ∷ []; decode = decode_nat; round = λ n rest. refl }

module _ {A B : Type 0} where
  abbrev then_decode : Option (A × Bytes) → (A → Bytes → Option (B × Bytes)) → Option (B × Bytes)
  then_decode none f = none
  then_decode (some (a, rest)) f = f a rest

  -- Another type, along functions between them
  abbrev pub through : Codec A → (f : B → A) (g : A → B) → ((b : B) → g (f b) ≡ b) → Codec B
  through c f g back = record {
    encode = λ b. c.encode (f b);
    decode = λ text. then_decode (c.decode text) (λ a rest. some (g a, rest));
    round = λ b rest. rw (c.round (f b) rest) (ap (λ x. some (x, rest)) (back b));
  }

module _ {A B : Type 0} (a : Codec A) (b : Codec B) where
  abbrev pair_second : A → Bytes → Option ((A × B) × Bytes)
  pair_second x rest = then_decode (b.decode rest) (λ y rest. some ((x, y), rest))

  pub pair-round :
      (x : A) (y : B) (rest : Bytes)
      → then_decode (a.decode ((a.encode x ++ b.encode y) ++ rest)) pair_second
        ≡ some ((x, y), rest)
  pair-round x y rest =
      rw (append-append (a.encode x) (b.encode y) rest)
        (rw (a.round x (b.encode y ++ rest)) (rw (b.round y rest) refl))

  abbrev pub pair : Codec (A × B)
  pair = record {
    encode = λ (x, y). a.encode x ++ b.encode y;
    decode = λ text. then_decode (a.decode text) pair_second;
    round = λ (x, y) rest. pair-round x y rest;
  }

module _ {A : Type 0} (a : Codec A) where
  abbrev decode_option : Bytes → Option (Option A × Bytes)
  decode_option [] = none
  decode_option (zero ∷ rest) = some (none, rest)
  decode_option (suc n ∷ rest) = then_decode (a.decode rest) (λ x rest. some (some x, rest))

  abbrev encode_option : Option A → Bytes
  encode_option none = 0 ∷ []
  encode_option (some x) = 1 ∷ a.encode x

  pub option-round :
      (o : Option A) (rest : Bytes) → decode_option (encode_option o ++ rest) ≡ some (o, rest)
  option-round none rest = refl
  option-round (some x) rest = rw (a.round x rest) refl

  abbrev pub option : Codec (Option A)
  option = record { encode = encode_option; decode = decode_option; round = option-round }

  abbrev encode_all : List A → Bytes
  encode_all [] = []
  encode_all (x ∷ xs) = a.encode x ++ encode_all xs

  abbrev decode_all : ℕ → Bytes → Option (List A × Bytes)
  decode_all zero text = some ([], text)
  decode_all (suc n) text =
      then_decode (a.decode text)
        (λ x rest. then_decode (decode_all n rest) (λ xs rest. some (x ∷ xs, rest)))

  abbrev decode_list : Bytes → Option (List A × Bytes)
  decode_list [] = none
  decode_list (n ∷ rest) = decode_all n rest

  pub list-round :
      (xs : List A) (rest : Bytes)
      → decode_all (length xs) (encode_all xs ++ rest) ≡ some (xs, rest)
  list-round [] rest = refl
  list-round (x ∷ xs) rest =
      rw (append-append (a.encode x) (encode_all xs) rest)
        (rw (a.round x (encode_all xs ++ rest)) (rw (list-round xs rest) refl))

  abbrev pub list : Codec (List A)
  list = record {
    encode = λ xs. length xs ∷ encode_all xs;
    decode = decode_list;
    round = list-round;
  }

abbrev value_of {ℓ} : {A : Type ℓ} → Option (A × Bytes) → Option A
value_of none = none
value_of (some (a, rest)) = some a

module _ {ℓ} {A : Type ℓ} (c : Codec A) where
  abbrev pub to_vec : A → Option Bytes
  to_vec a = some (c.encode a)

  abbrev pub from_slice : Bytes → Option A
  from_slice text = value_of (c.decode text)

  read_whole : (a : A) → from_slice (c.encode a) ≡ some a
  read_whole a = rw (sym (append-empty (c.encode a))) (rw (c.round a []) refl)

  pub from_slice-to_vec : (a : A) (text : Bytes) → to_vec a ≡ some text → from_slice text ≡ some a
  from_slice-to_vec a text e =
      subst (λ x. from_slice x ≡ some a) (some-injective (c.encode a) text e) (read_whole a)
