-- ===== src/Registry/Purge.antt =====
-- PurgeExpired.
use priority_service_poc.Base.{
  ℕ, zero, suc, ◌+◌, ◌<◌, ◌≡◌, refl, sym, ◌∙◌, subst, inl, inr, some, Bool, true, false, ◌&&◌,
  arith, length, get_elem?-get_or, ltb, ◌==◌, if◌then◌else◌, Bool-cases, eq_of_==,
}
use priority_service_poc.Base.Int.{ℤ, pos}
use priority_service_poc.Base.Run.{Returns, returns, Returns-bind, Returns-mono, load-ok, ok}
use priority_service_poc.Types.{Sizes, OrderMeta}
use priority_service_poc.Matrix.Cells.{score_at}
use priority_service_poc.Indexes.Counts.{count, list_of}
use priority_service_poc.Registry.{
  zero_meta, OrderStore, is_expired, purge_loop, purge_expired, evict_slot,
}
use priority_service_poc.Registry.Evict.{IsValid, slot, evicted, IsEvicted, evict_slot-IsEvicted}

-- Exactly the orders that `gone` holds of were evicted.
pub record IsCleaned (s : Sizes) (gone : ℕ → Bool) (old new : OrderStore) : Type 0 where
  pub valid : IsValid s new
  pub slots : (o : ℕ) → slot new o ≡ (if gone o then evicted (slot old o) else slot old o)
  pub tpids :
      (k o : ℕ)
      → count o (list_of k new.indexes.tpid_to_orders)
        ≡ (if gone o then 0 else count o (list_of k old.indexes.tpid_to_orders))
  pub bin_tags :
      (k o : ℕ)
      → count o (list_of k new.indexes.bin_tag_to_orders)
        ≡ (if gone o then 0 else count o (list_of k old.indexes.bin_tag_to_orders))
  pub same_rows : new.matrix.num_pps ≡ old.matrix.num_pps
  pub scores :
      (p o : ℕ)
      → p < old.matrix.num_pps
      → o < s.num_orders
      → score_at s new.matrix p o ≡ (if gone o then some (pos 0) else score_at s old.matrix p o)

merge {ℓ} :
    {A : Type ℓ} (hit gone gone' : Bool) (x y : A) {m m' : A}
    → (hit ≡ true → m' ≡ x)
    → m ≡ (if gone then x else y)
    → gone' ≡ (if hit then true else gone)
    → (if hit then m' else m) ≡ (if gone' then x else y)
merge true gone gone' x y new old e = rw e (new refl)
merge false gone gone' x y new old e = rw e old

==_comm : (a b : ℕ) → (a == b) ≡ (b == a)
==_comm a b = ground arith

module _ (s : Sizes) (old : OrderStore) where
  IsCleaned-none :
      IsValid s old → (gone : ℕ → Bool) → ((o : ℕ) → gone o ≡ false) → IsCleaned s gone old old
  IsCleaned-none valid gone kept = record {
    valid = valid;
    slots = λ o. rw (kept o) refl;
    tpids = λ k o. rw (kept o) refl;
    bin_tags = λ k o. rw (kept o) refl;
    same_rows = refl;
    scores = λ p o hp ho. rw (kept o) refl;
  }

  IsCleaned-same :
      {gone gone' : ℕ → Bool} {new : OrderStore}
      → ((o : ℕ) → gone o ≡ gone' o)
      → IsCleaned s gone old new
      → IsCleaned s gone' old new
  IsCleaned-same same c = record {
    valid = c.valid;
    slots = λ o. rw (← same o) (c.slots o);
    tpids = λ k o. rw (← same o) (c.tpids k o);
    bin_tags = λ k o. rw (← same o) (c.bin_tags k o);
    same_rows = c.same_rows;
    scores = λ p o hp ho. rw (← same o) (c.scores p o hp ho);
  }

  IsCleaned-step :
      {gone gone' : ℕ → Bool} {mid new : OrderStore} (i : ℕ)
      → gone i ≡ false
      → ((o : ℕ) → gone' o ≡ (if i == o then true else gone o))
      → IsCleaned s gone old mid
      → IsEvicted s i mid new
      → IsCleaned s gone' old new
  unfolding count
  IsCleaned-step {gone} {gone'} {mid} i not_yet now c e = record {
    valid = e.valid;
    slots = λ o.
        e.slots o
        ∙ merge (i == o) (gone o) (gone' o) (evicted (slot old o)) (slot old o)
            (λ hit. rw (c.slots i, not_yet, eq_of_== i o hit) refl) (c.slots o) (now o);
    tpids = λ k o.
        e.tpids k o
        ∙ merge (o == i) (gone o) (gone' o) 0 (count o (list_of k old.indexes.tpid_to_orders))
            (λ _. refl) (c.tpids k o) (rw (==_comm o i) (now o));
    bin_tags = λ k o.
        e.bin_tags k o
        ∙ merge (o == i) (gone o) (gone' o) 0 (count o (list_of k old.indexes.bin_tag_to_orders))
            (λ _. refl) (c.bin_tags k o) (rw (==_comm o i) (now o));
    same_rows = e.scores.same_rows ∙ c.same_rows;
    scores = λ p o hp ho.
        e.scores.cells p o (omega (arith, c.same_rows)) ho
        ∙ merge (i == o) (gone o) (gone' o) (some (pos 0)) (score_at s old.matrix p o) (λ _. refl)
            (c.scores p o hp ho) (now o);
  }

  module _ (now_secs : ℤ) where
    -- The expired orders among the first `i`.
    abbrev purged : ℕ → ℕ → Bool
    purged i o = ltb o i && is_expired now_secs (slot old o)

    -- The round `i` decides on order `i`, and only on it.
    purged-suc :
        (i o : ℕ) (b : Bool)
        → is_expired now_secs (slot old i) ≡ b
        → purged (suc i) o ≡ (if i == o then b else purged i o)
    purged-suc i o b e = elim (Bool-cases (i == o)) [
      | inl here ↦
          let before : ltb o (suc i) ≡ true = ground (arith, eq_of_== i o here) in
          rw (here, before) (rw (← eq_of_== i o here) e)
      | inr other ↦
          let same : ltb o (suc i) ≡ ltb o i = ground (arith, other) in rw (other, same) refl
    ]

    purged_self : (i : ℕ) → purged i i ≡ false
    purged_self i = let none_yet : ltb i i ≡ false = ground arith in rw none_yet refl

    keep_round : (i o : ℕ) → (if i == o then false else purged i o) ≡ purged i o
    keep_round i o = elim (Bool-cases (i == o)) [
      | inl here ↦ rw here (rw (← eq_of_== i o here) (sym (purged_self i)))
      | inr other ↦ rw other refl
    ]

    expired_active : (m : OrderMeta) → is_expired now_secs m ≡ true → m.active ≡ true
    unfolding is_expired
    expired_active m e = elim (Bool-cases m.active) [
      | inl on ↦ on
      | inr off ↦ absurd (ground (arith, e, off))
    ]

    slot-current :
        (i : ℕ) (cur : OrderStore) → IsCleaned s (purged i) old cur → slot cur i ≡ slot old i
    slot-current i cur c = c.slots i ∙ rw (purged_self i) refl

    -- One round of the loop.
    purge_round :
        (i : ℕ) (cur : OrderStore)
        → i < s.num_orders
        → IsCleaned s (purged i) old cur
        → Returns (IsCleaned s (purged (suc i)) old) (
            if is_expired now_secs (slot cur i)
            then evict_slot s cur i (slot cur i) (slot cur i).order_id
            else ok cur)
    purge_round i cur inside c = elim (Bool-cases (is_expired now_secs (slot cur i))) [
      | inl old_one ↦
          let now = subst (λ m. is_expired now_secs m ≡ true) (slot-current i cur c) old_one in
          rw (old_one, c.valid.keyed i (expired_active (slot cur i) old_one))
            (Returns-mono
              (λ new e. IsCleaned-step i (purged_self i) (λ o. purged-suc i o true now) c e)
              (evict_slot-IsEvicted s cur c.valid i inside))
      | inr kept ↦
          let now = subst (λ m. is_expired now_secs m ≡ false) (slot-current i cur c) kept in
          rw kept
            (returns (IsCleaned-same (λ o. sym (purged-suc i o false now ∙ keep_round i o)) c))
    ]

    purge_loop-IsCleaned :
        (rounds i : ℕ) (cur : OrderStore)
        → i + rounds ≡ s.num_orders
        → IsCleaned s (purged i) old cur
        → Returns (IsCleaned s (purged (i + rounds)) old) (purge_loop s now_secs rounds i cur)
    unfolding purge_loop
    purge_loop-IsCleaned zero i cur h c =
        returns (subst (λ n. IsCleaned s (purged n) old cur) {x = i} {y = i + 0} (omega arith) c)
    purge_loop-IsCleaned (suc rounds) i cur h c =
        let hit : i < length cur.registry.meta = omega (arith, c.valid.slots) in
        rw (load-ok cur.registry.meta i (get_elem?-get_or cur.registry.meta i zero_meta hit)) (
          Returns-bind (purge_round i cur (omega arith) c) λ next c'.
            Returns-mono
              (λ new d.
                subst (λ n. IsCleaned s (purged n) old new) {x = suc i + rounds}
                  {y = i + suc rounds} (omega arith) d)
              (purge_loop-IsCleaned rounds (suc i) next (omega arith) c'))

-- PurgeExpired on a valid store returns a valid store without a panic. Exactly the orders that are
-- active, have an insertion time and are older than the time to live are evicted: their slots are
-- inactive, they stand in no list of the indexes and their scores are 0; every other order keeps its
-- slot, its lists and its scores.
pub purge_expired-IsCleaned :
    (s : Sizes) (st : OrderStore) (now_secs : ℤ)
    → IsValid s st
    → Returns
        (IsCleaned s (λ o. ltb o s.num_orders && is_expired now_secs (slot st o)) st)
        (purge_expired s st now_secs)
unfolding purge_expired
purge_expired-IsCleaned s st now_secs valid =
    subst
      (λ n.
        Returns (IsCleaned s (purged s st now_secs n) st) (purge_loop s now_secs s.num_orders 0 st))
      {x = 0 + s.num_orders} {y = s.num_orders} (omega arith)
      (purge_loop-IsCleaned s st now_secs s.num_orders 0 st (omega arith) (
        IsCleaned-none s st valid (purged s st now_secs 0)
          λ o. let none_yet : ltb o 0 ≡ false = ground arith in rw none_yet refl))
