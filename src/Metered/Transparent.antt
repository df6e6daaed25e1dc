-- ===== src/Metered/Transparent.antt =====
-- internal/audit/storage/instrumented.go: counting changes nothing.
use mcp_audit.Base.{
  suc, true, false, ◌≡◌, refl, List, [], ◌∷◌, Option, none, some, nat_eq, length, arith, ◌++◌,
}
use mcp_audit.Metered.{
  Wrapped, Metered, succeeded, record_write, raised, batch_by, append_each, append_batch_metered,
  unless_failed,
}

module _ {S E X : Type 0} (store : Wrapped S E X) where
  -- A batch of at least one record goes to the wrapped store as it is, by its own batch operation
  -- or record by record up to the first failure; the answer is the wrapped store's, and the metrics
  -- get one write with that answer and the number of records.
  pub append_batch_metered-transparent :
      (e : E) (es : List E) (m : Metered S)
      → let (m', x) = append_batch_metered store true (e ∷ es) m in
        let answer = raised store true (batch_by store true store.append_batch (e ∷ es) m.inner) in
        (m'.inner ≡ answer.0)
        × (x ≡ answer.1)
        × (m'.writes ≡ (succeeded store true answer.1, suc (length es)) ∷ m.writes)
  unfolding append_batch_metered record_write
  append_batch_metered-transparent e es m =
      let some_records : nat_eq (suc (length es)) 0 ≡ false = ground arith in
      (refl, refl, rw some_records refl)

  after_first :
      (es fs : List E) (r : S × Option X)
      → ((s : S)
          → append_each store true (es ++ fs) s
            ≡ unless_failed store true (append_each store true fs) (append_each store true es s))
      → unless_failed store true (append_each store true (es ++ fs)) r
        ≡ unless_failed store true
            (append_each store true fs)
            (unless_failed store true (append_each store true es) r)
  after_first es fs (s, none) h = h s
  after_first es fs (s, some x) h = refl

  -- A run record by record is that of its first part, and then that of the rest where nothing
  -- failed: the records behind a failure are not written.
  pub append_each-append :
      (es fs : List E) (s : S)
      → append_each store true (es ++ fs) s
        ≡ unless_failed store true (append_each store true fs) (append_each store true es s)
  unfolding append_each
  append_each-append [] fs s = refl
  append_each-append (e ∷ es) fs s = after_first es fs (store.append e s) (append_each-append es fs)
