-- ===== src/Server/Database/Envelopes/Register.antt =====
-- The stored key envelopes as registers that are written once.
use rustsync.Base.{
  if◌then◌else◌, ◌==◌, bytes_ord, bytes_cmp_iff, ==_iff, Bool-cases, sym, subst, ap, ◌≢◌, Bytes,
  Option, none, some, ◌≡◌, refl,
}
use rustsync.Base.{List, [], ◌∷◌, Option-cases, inl, inr, arith}
use rustsync.Base.Map.{get, get-insert}
use rustsync.Base.Exec.{Result, ok, ◌>>=◌}
use rustsync.Server.Error.{ServerError}
use rustsync.Server.Database.Tables.{Database, EnvelopeKey, envelope_key_ord}
use rustsync.Server.Database.Envelopes.{PutResult, created, already_exists, conflict}
use rustsync.Server.Database.Envelopes.{put_key_envelope, get_key_envelope}

-- One put
pub record Put : Type 0 where
  pub key : EnvelopeKey
  pub envelope : Bytes

abbrev pub run_put : Put → Database → Result ServerError PutResult × Database
run_put p db = put_key_envelope p.key.key_id p.key.recipient_device_id p.envelope db

-- What a register holds after a put, and what it answers
abbrev pub write_once : Bytes → Option Bytes → PutResult × Bytes
write_once envelope none = (created, envelope)
write_once envelope (some old) = (if old == envelope then already_exists else conflict, old)

get-again :
    (j k : EnvelopeKey) (db : Database) (old : Bytes)
    → get k db.key_envelopes ≡ some old
    → get j db.key_envelopes ≡ (if j == k then some old else get j db.key_envelopes)
get-again j k db old there = elim (Bool-cases (j == k)) [
  | inl same ↦
      rw same (subst (λ i. get i db.key_envelopes ≡ some old) (sym ((==_iff j k).0 same)) there)
  | inr off ↦ rw off refl
]

-- A put answers and writes as the register of its key does that is written once, and leaves the
-- other registers and the other tables as they are.
pub put_key_envelope-write_once :
    (p : Put) (db : Database)
    → let (answer, kept) = write_once p.envelope (get p.key db.key_envelopes) in
      ((run_put p db).0 ≡ ok answer)
      × ((j : EnvelopeKey)
          → get j (run_put p db).1.key_envelopes
            ≡ (if j == p.key then some kept else get j db.key_envelopes))
      × ((run_put p db).1 ≡ record db { key_envelopes = (run_put p db).1.key_envelopes })
unfolding put_key_envelope ◌>>=◌
put_key_envelope-write_once p db = elim (Option-cases (get p.key db.key_envelopes)) [
  | inl (old, there) ↦ (
    ground (arith, there),
    λ j. ground (arith, there, get-again j p.key db old there),
    ground (arith, there),
  )
  | inr free ↦ (
    ground (arith, free),
    λ j. ground (arith, free, get-insert j p.key p.envelope db.key_envelopes),
    ground (arith, free),
  )
]

-- The database after puts of any clients
abbrev pub after_puts : List Put → Database → Database
after_puts [] db = db
after_puts (p ∷ ps) db = after_puts ps (run_put p db).1

-- What is stored stays stored, whatever puts come.
pub after_puts-kept :
    (ps : List Put) (db : Database) (k : EnvelopeKey) (envelope : Bytes)
    → get k db.key_envelopes ≡ some envelope
    → get k (after_puts ps db).key_envelopes ≡ some envelope
after_puts-kept [] db k envelope there = there
after_puts-kept (p ∷ ps) db k envelope there =
    let (answered, written, rest) = put_key_envelope-write_once p db in
    after_puts-kept ps (run_put p db).1 k envelope
      (ground (arith, written k, there, ==_iff k p.key))

run_put-again :
    (p : Put) (db : Database)
    → get p.key db.key_envelopes ≡ some p.envelope
    → run_put p db ≡ (ok already_exists, db)
unfolding put_key_envelope ◌>>=◌
run_put-again p db there = ground (arith, there, bytes_cmp_iff p.envelope p.envelope)

-- A put that has not answered with a conflict has left its envelope.
run_put-stored :
    (p : Put) (db : Database) (answer : PutResult)
    → (run_put p db).0 ≡ ok answer
    → answer ≢ conflict
    → get p.key (run_put p db).1.key_envelopes ≡ some p.envelope
run_put-stored p db answer run taken =
    let (answered, written, rest) = put_key_envelope-write_once p db in
    let here = written p.key in
    elim (Option-cases (get p.key db.key_envelopes)) [
      | inl (old, there) ↦ ground (
        arith,
        here,
        answered,
        run,
        taken,
        there,
        bytes_cmp_iff old p.envelope,
        ==_iff p.key p.key,
      )
      | inr free ↦ ground (arith, here, free, ==_iff p.key p.key)
    ]

-- Once a put has answered that its envelope was created, or exists already, the envelope is what
-- is read, whatever puts come after it, and the same put is answered again that it exists already.
pub put_key_envelope_kept :
    (p : Put) (ps : List Put) (db : Database) (answer : PutResult)
    → (run_put p db).0 ≡ ok answer
    → answer ≢ conflict
    → let later = after_puts ps (run_put p db).1 in
      (get_key_envelope p.key.key_id p.key.recipient_device_id later ≡ ok (some p.envelope))
      × (run_put p later ≡ (ok already_exists, later))
unfolding get_key_envelope
put_key_envelope_kept p ps db answer run taken =
    let kept =
      after_puts-kept ps (run_put p db).1 p.key p.envelope (run_put-stored p db answer run taken) in
    (ap ok kept, run_put-again p (after_puts ps (run_put p db).1) kept)
