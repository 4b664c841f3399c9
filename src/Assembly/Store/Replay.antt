-- ===== src/Assembly/Store/Replay.antt =====
-- What a repeated command does: the guarantees of `exactly_once`, whatever the operation.
use unified_software_commerc.Prelude.{
  String, true, false, none, some, List, [], ◌∷◌, find, ◌==◌, ◌≡◌, ◌≢◌, refl, sym, ap, ◌∙◌, subst,
  arith, eq_iff, eq_refl, if◌then◌else◌, inl, inr, Bool-cases, Option-cases, Result-cases, Result,
  ok, err,
}
use unified_software_commerc.Assembly.Model.{
  AssemblyError, idempotency_conflict, response_unreadable, Idempotency,
}
use unified_software_commerc.Assembly.Store.Rows.{Tables, find-set_where_other}
use unified_software_commerc.Assembly.Store.{
  Database, Receipt, completed, Codec, has_key, pending_receipt, stored_response,
  reserve_idempotency, complete_idempotency, exactly_once,
}

-- The receipt that a finished operation leaves.
abbrev pub finished_receipt : Idempotency → String → String → Receipt
finished_receipt key resource raw = record (pending_receipt key) {
  state = completed;
  resource_id = some resource;
  response_json = some raw;
}

has_key_refl : (key : Idempotency) → has_key key (pending_receipt key) ≡ true
has_key_refl key = ground (
  arith,
  eq_refl key.operation,
  eq_refl key.actor_id,
  eq_refl key.scope_id,
  eq_refl key.key_digest,
)

-- What the same text decodes to.
abbrev pub reread : {A : Type 0} → Codec A → A → Result AssemblyError A
reread codec a = elim (codec.decode (codec.encode a)) [
  | none ↦ err response_unreadable
  | some b ↦ ok b
]

-- A receipt that a query for the key finds: complete, of the key's request, with the given response.
record IsAnswered (key : Idempotency) (raw : String) (db : Database) : Type 0 where
  receipt : Receipt
  found : find (has_key key) db.receipts ≡ some receipt
  digest : receipt.request_digest ≡ key.request_digest
  state : receipt.state ≡ completed
  response : receipt.response_json ≡ some raw

-- Two keys of one operation, actor, scope and key find the same.
find-same_key :
    (key key' : Idempotency) (rows : List Receipt)
    → has_key key' (pending_receipt key) ≡ true
    → find (has_key key') rows ≡ find (has_key key) rows
find-same_key key key' [] same = refl
find-same_key key key' (r ∷ rows) same = ground (
  arith,
  eq_iff key.operation key'.operation,
  eq_iff key.actor_id key'.actor_id,
  eq_iff key.scope_id key'.scope_id,
  eq_iff key.key_digest key'.key_digest,
  find-same_key key key' rows same,
)

other_key :
    (key key' : Idempotency) (r : Receipt)
    → has_key key (pending_receipt key') ≡ false
    → has_key key' r ≡ true
    → has_key key r ≡ false
other_key key key' r differs h = ground (
  arith,
  eq_iff r.operation key'.operation,
  eq_iff r.actor_id key'.actor_id,
  eq_iff r.scope_id key'.scope_id,
  eq_iff r.key_digest key'.key_digest,
)

module _ {A : Type 0} (codec : Codec A) (resource : A → String) where
  -- The first call of an operation commits its tables and a finished receipt.
  first_call :
      (key : Idempotency) (body : Tables → Result AssemblyError (A × Tables)) (db : Database)
      (a : A) (t : Tables)
      → find (has_key key) db.receipts ≡ none
      → body db.tables ≡ ok (a, t)
      → exactly_once codec resource key body db ≡ (
        ok a,
        record {
          tables = t;
          receipts =
              finished_receipt key (resource a) (codec.encode a)
              ∷ complete_idempotency key (resource a) (codec.encode a) db.receipts;
        },
      )
  unfolding reserve_idempotency complete_idempotency
  first_call key body db a t fresh e = ground (arith, has_key_refl key)

  failed_call :
      (key : Idempotency) (body : Tables → Result AssemblyError (A × Tables)) (db : Database)
      (e : AssemblyError)
      → find (has_key key) db.receipts ≡ none
      → body db.tables ≡ err e
      → (a : A) → (exactly_once codec resource key body db).0 ≢ ok a
  unfolding reserve_idempotency
  failed_call key body db e fresh h a done = ground arith

  ok_injective : {a b : A} → (p : Result AssemblyError A) → p ≡ ok a → p ≡ ok b → a ≡ b
  ok_injective p e f = cc

  -- An operation that fails leaves the database as it is.
  refused_call :
      (key : Idempotency) (body : Tables → Result AssemblyError (A × Tables)) (db : Database)
      (e : AssemblyError)
      → find (has_key key) db.receipts ≡ none
      → body db.tables ≡ err e
      → (exactly_once codec resource key body db).1 ≡ db
  unfolding reserve_idempotency
  refused_call key body db e fresh h = ground arith

  -- A call with a key that is there writes nothing.
  repeated_call :
      (key : Idempotency) (body : Tables → Result AssemblyError (A × Tables)) (db : Database)
      (r : Receipt)
      → find (has_key key) db.receipts ≡ some r
      → (exactly_once codec resource key body db).1 ≡ db
  unfolding reserve_idempotency
  repeated_call key body db r found = elim (Bool-cases (r.request_digest == key.request_digest)) [
    | inr differ ↦ ground arith
    | inl agree ↦ elim (Result-cases (stored_response codec r)) [
      | inl (a, e) ↦ ground arith
      | inr (problem, e) ↦ ground arith
    ]
  ]

  -- No call takes back the answer of another key, or of this one.
  call-IsAnswered :
      (key key' : Idempotency) (raw : String) (body : Tables → Result AssemblyError (A × Tables))
      (db : Database)
      → IsAnswered key raw db
      → IsAnswered key raw (exactly_once codec resource key' body db).1
  unfolding complete_idempotency
  call-IsAnswered key key' raw body db h = elim (Option-cases (find (has_key key') db.receipts)) [
    | inr (r, there) ↦ subst (IsAnswered key raw) (sym (repeated_call key' body db r there)) h
    | inl fresh ↦ elim (Result-cases (body db.tables)) [
      | inr (problem, e) ↦
          subst (IsAnswered key raw) (sym (refused_call key' body db problem fresh e)) h
      | inl ((a, t), e) ↦ elim (Bool-cases (has_key key (pending_receipt key'))) [
        | inl same ↦
            absurd (ground (arith, fresh, h.found, find-same_key key' key db.receipts same))
        | inr differs ↦
            let kept =
              find-set_where_other (has_key key) (has_key key')
                (λ r. record r {
                  state = completed;
                  resource_id = some (resource a);
                  response_json = some (codec.encode a);
                  updated_at = key'.now;
                })
                db.receipts
                (λ r hit. (other_key key key' r differs hit, other_key key key' r differs hit)) in
            subst (IsAnswered key raw) (sym (ap (λ x. x.1) (first_call key' body db a t fresh e)))
              (record {
                receipt = h.receipt;
                found = ground (arith, kept, h.found);
                digest = h.digest;
                state = h.state;
                response = h.response;
              })
      ]
    ]
  ]

  -- What a call with an answered key returns.
  answered_call :
      (key key' : Idempotency) (body : Tables → Result AssemblyError (A × Tables)) (a : A)
      (db : Database)
      → has_key key' (pending_receipt key) ≡ true
      → codec.encode a ≢ ""
      → IsAnswered key (codec.encode a) db
      → exactly_once codec resource key' body db ≡ (
        (if key.request_digest == key'.request_digest
            then reread codec a
            else err idempotency_conflict),
        db,
      )
  unfolding reserve_idempotency
  answered_call key key' body a db same text h =
      let found : find (has_key key') db.receipts ≡ some h.receipt =
        find-same_key key key' db.receipts same ∙ h.found in
      let full : (codec.encode a == "") ≡ false = elim (Bool-cases (codec.encode a == "")) [
        | inl blank ↦ absurd (text ((eq_iff (codec.encode a) "").0 blank))
        | inr full ↦ full
      ] in
      let digest : (h.receipt.request_digest == key'.request_digest)
          ≡ (key.request_digest == key'.request_digest) =
        ap (λ d. d == key'.request_digest) h.digest in
      let state = h.state in
      let response = h.response in
      elim (Bool-cases (key.request_digest == key'.request_digest)) [
        | inr differ ↦ ground (arith, found, differ, digest)
        | inl agree ↦ elim (Option-cases (codec.decode (codec.encode a))) [
          | inl none' ↦ ground (arith, found, full, agree, digest, state, response, none')
          | inr (b, e) ↦ ground (arith, found, full, agree, digest, state, response, e)
        ]
      ]

  first-IsAnswered :
      (key : Idempotency) (body : Tables → Result AssemblyError (A × Tables)) (db : Database)
      (a : A)
      → find (has_key key) db.receipts ≡ none
      → (exactly_once codec resource key body db).0 ≡ ok a
      → IsAnswered key (codec.encode a) (exactly_once codec resource key body db).1
  first-IsAnswered key body db a fresh done = elim (Result-cases (body db.tables)) [
    | inr (e', e) ↦ absurd (failed_call key body db e' fresh e a done)
    | inl ((b, t), e) ↦
        let once = first_call key body db b t fresh e in
        let same_value : b ≡ a =
          ok_injective (exactly_once codec resource key body db).0 (ap (λ r. r.0) once) done in
        subst (λ x. IsAnswered key (codec.encode x) (exactly_once codec resource key body db).1)
          same_value
          (subst (IsAnswered key (codec.encode b)) (sym (ap (λ r. r.1) once)) (record {
            receipt = finished_receipt key (resource b) (codec.encode b);
            found = ground (arith, has_key_refl key);
            digest = refl;
            state = refl;
            response = refl;
          }))
  ]

-- The databases that any commands lead to, whatever they do and under whatever keys.
pub data Calls (db : Database) : Database → Type 1 where
  no_call : Calls db db
  called :
      {A : Type 0} {db' : Database}
      → Calls db db'
      → (codec : Codec A) (resource : A → String) (key : Idempotency)
        (body : Tables → Result AssemblyError (A × Tables))
      → Calls db (exactly_once codec resource key body db').1

Calls-IsAnswered :
    {db db' : Database} (key : Idempotency) (raw : String)
    → Calls db db'
    → IsAnswered key raw db
    → IsAnswered key raw db'
Calls-IsAnswered key raw no_call h = h
Calls-IsAnswered key raw (called {db' = mid} earlier codec resource key' body) h =
    call-IsAnswered codec resource key key' raw body mid (Calls-IsAnswered key raw earlier h)

module _ {A : Type 0} (codec : Codec A) (resource : A → String) where
  -- A command that was done once is never done again. If the first call with an unused key succeeds with
  -- `a`, whose text is not empty, then after any further commands, under this key or others, a call under
  -- the same operation, actor, scope and key leaves the database as it is, whatever it would do: it
  -- returns what the response stored by the first call decodes to if its request digest is the same, and
  -- a conflict otherwise.
  pub command_runs_once :
      (key key' : Idempotency) (body body' : Tables → Result AssemblyError (A × Tables))
      (db later : Database) (a : A)
      → find (has_key key) db.receipts ≡ none
      → (exactly_once codec resource key body db).0 ≡ ok a
      → Calls (exactly_once codec resource key body db).1 later
      → has_key key' (pending_receipt key) ≡ true
      → codec.encode a ≢ ""
      → exactly_once codec resource key' body' later ≡ (
        (if key.request_digest == key'.request_digest
            then reread codec a
            else err idempotency_conflict),
        later,
      )
  command_runs_once key key' body body' db later a fresh done calls same text =
      answered_call codec resource key key' body' a later same text (
        Calls-IsAnswered key (codec.encode a) calls
          (first-IsAnswered codec resource key body db a fresh done))
