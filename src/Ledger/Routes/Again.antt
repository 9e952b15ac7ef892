-- ===== src/Ledger/Routes/Again.antt =====
-- The loop of `create_bulk_fees`, run again over the same members.
use Prim.Native.String.{◌++◌ as concat}
use mathlib.Core.Path.{subst}
use text.Mathlib.TextPositions.{eq_refl}
use enactspace.Shared.{
  ℕ, ◌≡◌, refl, sym, ◌∙◌, String, true, false, ◌&&◌, List, [], ◌∷◌, ◌++◌, Option, none, some,
  is_none, inl, inr, arith, Option-cases, Bool-cases, ◌==◌, same_id, same_text, str_eq,
}
use enactspace.Shared.Env.{Env}
use enactspace.Shared.Table.{All}
use enactspace.People.Models.{User}
use enactspace.Ledger.Models.{Fee, Ledger}
use enactspace.Ledger.Accounts.{update_account, charge}
use enactspace.Ledger.Requests.{FeeBulkCreate, FeeRecord}
use enactspace.Ledger.Fees.{
  new_fee, add_fee, create_fee_record, existing_fee, fee_of_attendance, fee_of_source,
}
use enactspace.Ledger.BulkFees.{create_fee_records, bulk_record}
use enactspace.Ledger.Balance.Accounts.{updated-rest}
use enactspace.Ledger.Routes.Effects.{create_fee_records-Keeps}
use enactspace.Server.Handler.Laws.{then-Keeps, then-ok, then-of, then-pure}
use enactspace.Shared.Table.Laws.{first-append_some, first-append_last}
use enactspace.Outbox.Service.{or_id}
use enactspace.Server.Handler.{Result, ok, Session, pure, ◌>>=◌}
use enactspace.Shared.Int.{to_ℕ}

or_id-some : (a b c : Option ℕ) (k : ℕ) → is_none (or_id a (or_id b (or_id c (some k)))) ≡ false
or_id-some a b c k = ground arith

-- the query by source, for a fee of that source and for any other
fee_of_source-last :
    (env : Env) (u : ℕ) (t : String) (sid : Option ℕ) (fees : List Fee) (x : Fee)
    → str_eq t "" ≡ false
    → is_none sid ≡ false
    → x.user_id ≡ u
    → x.source_type ≡ some t
    → x.source_id ≡ sid
    → is_none (fee_of_source env u (some t) sid (fees ++ x ∷ [])) ≡ false
unfolding fee_of_source
fee_of_source-last env u t none fees x filled given own typed from = ground (arith, given)
fee_of_source-last env u t (some k) fees x filled given own typed from =
    let hit : (x.user_id == u && same_text x.source_type (some t) && same_id x.source_id (some k))
        ≡ true =
      rw (own, typed, from, eq_refl t) (ground arith) in
    rw filled (first-append_last _ fees x hit)

fee_of_source-append :
    (env : Env) (u : ℕ) (o : Option String) (sid : Option ℕ) (fees : List Fee) (x : Fee)
    → is_none (fee_of_source env u o sid fees) ≡ false
    → is_none (fee_of_source env u o sid (fees ++ x ∷ [])) ≡ false
unfolding fee_of_source
fee_of_source-append env u none sid fees x h = h
fee_of_source-append env u (some t) none fees x h = h
fee_of_source-append env u (some t) (some k) fees x h = elim (Bool-cases (str_eq t "")) [
  | inl blank ↦ ground (arith, blank, h)
  | inr filled ↦ rw filled (first-append_some _ fees x (ground (arith, filled, h)))
]

module _ (env : Env) (user : User) (payload : FeeBulkCreate)
    (cut : (s : String) → str_eq (env.prefix 80 (concat "bulk_" s)) "" ≡ false) where
  -- the fee of the member `u` was made
  abbrev IsCovered : ℕ → Ledger → Type 0
  IsCovered u l = is_none (existing_fee env (bulk_record env user payload u) l.fees) ≡ false

  add_fee-covers :
      (u : ℕ) (l : Ledger) → IsCovered u (add_fee env user.id (bulk_record env user payload u) l).1
  unfolding add_fee existing_fee new_fee bulk_record
  add_fee-covers u l =
      fee_of_source-last env u _ _ _ _ (cut _)
        (or_id-some payload.pole_id payload.project_id payload.season_id user.id) refl refl refl

  add_fee-IsCovered :
      (u : ℕ) (r : FeeRecord) (l : Ledger) → IsCovered u l → IsCovered u (add_fee env user.id r l).1
  unfolding add_fee existing_fee bulk_record
  add_fee-IsCovered u r l h =
      let b = bulk_record env user payload u in
      let l' = update_account env r.user_id (charge env (to_ℕ r.amount)) l in
      let kept : is_none (fee_of_source env u b.source_type b.source_id l'.fees) ≡ false =
        rw (updated-rest env r.user_id l (charge env (to_ℕ r.amount)) (λ a. (refl, refl))).0 h in
      fee_of_source-append env u b.source_type b.source_id l'.fees (new_fee env user.id r l'.drawn)
        kept

  create_fee_record-IsCovered :
      (u : ℕ) (r : FeeRecord) (s : Session)
      → IsCovered u s.work.ledger
      → IsCovered u (create_fee_record env user.id r s).1.work.ledger
  unfolding create_fee_record
  create_fee_record-IsCovered u r s h =
      elim (Option-cases (existing_fee env r s.work.ledger.fees)) [
        | inl absent ↦ ground (arith, h, add_fee-IsCovered u r s.work.ledger h)
        | inr (fee, found) ↦ ground (arith, h)
      ]

  create_fee_records-IsCovered :
      (u : ℕ) (us : List ℕ) (s : Session)
      → IsCovered u s.work.ledger
      → IsCovered u (create_fee_records env user payload us s).1.work.ledger
  create_fee_records-IsCovered u =
      create_fee_records-Keeps env user payload (λ x. IsCovered u x.work.ledger)
        (create_fee_record-IsCovered u)

  -- a record that is made covers its member
  create_fee_record-covers :
      (u : ℕ) (s : Session) (fee : Fee)
      → (create_fee_record env user.id (bulk_record env user payload u) s).0 ≡ ok fee
      → IsCovered u (create_fee_record env user.id (bulk_record env user payload u) s).1.work.ledger
  unfolding create_fee_record
  create_fee_record-covers u s fee made =
      elim (Option-cases (existing_fee env (bulk_record env user payload u) s.work.ledger.fees)) [
        | inl absent ↦ ground (arith, made, absent, add_fee-covers u s.work.ledger)
        | inr (old, found) ↦ ground (arith, made, found)
      ]

  abbrev made : ℕ → Session → Result Fee × Session
  made u s = create_fee_record env user.id (bulk_record env user payload u) s

  made_first :
      (u : ℕ) (us : List ℕ) (s : Session) (fees : List Fee)
      → (create_fee_records env user payload (u ∷ us) s).0 ≡ ok fees
      → (fee : Fee) × ((made u s).0 ≡ ok fee)
  unfolding create_fee_records
  made_first u us s fees done =
      then-ok (made u s).0 (made u s).1
        (λ fee. create_fee_records env user payload us >>= λ fees. pure (fee ∷ fees)) fees done

  made_rest :
      (u : ℕ) (us : List ℕ) (s : Session) (fee : Fee)
      → (made u s).0 ≡ ok fee
      → create_fee_records env user payload (u ∷ us) s
        ≡ (create_fee_records env user payload us >>= λ fees. pure (fee ∷ fees)) (made u s).1
  unfolding create_fee_records
  made_rest u us s fee e =
      then-of (made u s).0 (made u s).1
        (λ fee'. create_fee_records env user payload us >>= λ fees. pure (fee' ∷ fees)) fee e

  All-IsCovered :
      (us : List ℕ) (s : Session) (fees : List Fee)
      → (create_fee_records env user payload us s).0 ≡ ok fees
      → All (λ u. IsCovered u (create_fee_records env user payload us s).1.work.ledger) us
  All-IsCovered [] s fees done = tt
  All-IsCovered (u ∷ us) s fees done =
      let (fee, first_made) = made_first u us s fees done in
      let whole = made_rest u us s fee first_made in
      let s' = (made u s).1 in
      let rest = create_fee_records env user payload us s' in
      let (fees', rest_made) =
        then-ok rest.0 rest.1 (λ fees. pure (fee ∷ fees)) fees (rw (← whole) done) in
      let same = then-pure rest.0 rest.1 (λ fees. fee ∷ fees) in
      let end : (create_fee_records env user payload (u ∷ us) s).1 ≡ rest.1 = rw whole same in
      subst (λ (x : Session). All (λ v. IsCovered v x.work.ledger) (u ∷ us)) (sym end)
        (
          create_fee_records-IsCovered u us s' (create_fee_record-covers u s fee first_made),
          All-IsCovered us s' fees' rest_made,
        )

  covered_record :
      (u : ℕ) (s : Session) → IsCovered u s.work.ledger → (made u s).1.work.ledger ≡ s.work.ledger
  unfolding create_fee_record
  covered_record u s h =
      elim (Option-cases (existing_fee env (bulk_record env user payload u) s.work.ledger.fees)) [
        | inl absent ↦ ground (arith, h, absent)
        | inr (old, found) ↦ ground (arith, found)
      ]

  covered-again :
      (us : List ℕ) (s : Session)
      → All (λ u. IsCovered u s.work.ledger) us
      → (create_fee_records env user payload us s).1.work.ledger ≡ s.work.ledger
  unfolding create_fee_records
  covered-again [] s h = refl
  covered-again (u ∷ us) s h =
      let Q : Session → Type 0 = λ x. x.work.ledger ≡ s.work.ledger in
      then-Keeps Q (λ fee. create_fee_records env user payload us >>= λ fees. pure (fee ∷ fees))
        (λ fee s' h'.
          let rest = create_fee_records env user payload us s' in
          then-Keeps Q (λ fees. pure (fee ∷ fees)) (λ fees s'' h''. h'') rest.0 rest.1
            (covered-again us s' (rw h' h.1) ∙ h'))
        (made u s).0 (made u s).1 (covered_record u s h.0)

-- When the loop of the bulk route made its fees, a second run of it, by the same user for the same
-- members and content, at any time, leaves the ledger as it was: nobody is charged twice. The first
-- 80 characters of a text that starts with `bulk_` are not empty.
pub create_fee_records-again :
    (env : Env) (later : ℕ) (user : User) (payload : FeeBulkCreate) (us : List ℕ) (s : Session)
    (fees : List Fee)
    → ((t : String) → str_eq (env.prefix 80 (concat "bulk_" t)) "" ≡ false)
    → (create_fee_records env user payload us s).0 ≡ ok fees
    → let s' = (create_fee_records env user payload us s).1 in
      (create_fee_records (record env { utcnow = later }) user payload us s').1.work.ledger
      ≡ s'.work.ledger
unfolding existing_fee bulk_record fee_of_attendance fee_of_source
create_fee_records-again env later user payload us s fees cut done =
    let s' = (create_fee_records env user payload us s).1 in
    covered-again (record env { utcnow = later }) user payload cut us s'
      (All-IsCovered env user payload cut us s fees done)
