-- ===== src/Examples/LifecycleTests/Stress/Heap.antt =====
-- The integers that the threads allocate: each belongs to one thread until the main thread frees it.
use ccthread.Prelude.{
  ℕ, ◌≡◌, refl, sym, ap, ◌∙◌, ◌≢◌, Bool, true, false, ◌==◌, Option, none, some, arith, update,
  update-cases, update_same, ℕ_discrete, if◌then◌else◌,
}
use mathlib.Core.Bool.{true≢false}

some≢none : {v : ℕ} → some v ≢ none
some≢none e = cc

module _ (vals : ℕ → ℕ) where
  pub record IsOwned (address : ℕ → ℕ) (gone : ℕ → Bool) (ints : ℕ → Option ℕ) : Type 0 where
    pub owns : (i : ℕ) → address i ≢ 0 → gone i ≡ false → ints (address i) ≡ some (vals i)
    pub apart :
        (i j : ℕ) → address i ≢ 0 → gone i ≡ false → gone j ≡ false → address i ≡ address j → i ≡ j
    pub owned : (a v : ℕ) → ints a ≡ some v → (i : ℕ) × (gone i ≡ false) × (address i ≡ a)
    pub null : ints 0 ≡ none

  pub none-IsOwned : (gone : ℕ → Bool) → IsOwned (λ i. 0) gone (λ a. none)
  none-IsOwned gone = record {
    owns = λ i n g. absurd (n refl);
    apart = λ i j n g h e. absurd (n refl);
    owned = λ a v e. absurd (ground arith);
    null = refl;
  }

  module _ {address : ℕ → ℕ} {gone : ℕ → Bool} {ints : ℕ → Option ℕ}
      (o : IsOwned address gone ints) where
    open o use {owns, apart, owned, null}

    null_block : {a v : ℕ} → a ≡ 0 → ints a ≢ some v
    null_block z e = some≢none (sym e ∙ ap ints z ∙ null)

    -- `malloc` in thread `i` returns `b`.
    module _ (i b : ℕ) (fresh : address i ≡ 0) (here : gone i ≡ false) (some_block : b ≢ 0)
        (unused : ints b ≡ none) where
      alloc-owns :
          (j : ℕ)
          → update address i b j ≢ 0
          → gone j ≡ false
          → update ints b (some (vals i)) (update address i b j) ≡ some (vals j)
      alloc-owns j =
          update-cases
            (λ a. a ≢ 0 → gone j ≡ false → update ints b (some (vals i)) a ≡ some (vals j)) address
            i b j (λ e n g. ground (arith, e)) (λ d n g. ground (arith, owns j n g))

      alloc-apart :
          (j k : ℕ)
          → update address i b j ≢ 0
          → gone j ≡ false
          → gone k ≡ false
          → update address i b j ≡ update address i b k
          → j ≡ k
      alloc-apart j k n g h e = ground (arith, owns j, owns k, apart j k)

      alloc-owned :
          (a v : ℕ)
          → update ints b (some (vals i)) a ≡ some v
          → (j : ℕ) × (gone j ≡ false) × (update address i b j ≡ a)
      alloc-owned a v e = elim (ℕ_discrete b a) [
        | yes same ↦ (i, here, ground arith)
        | no other ↦
            let f : ints a ≡ some v = ground arith in
            let (j, g, p) = owned a v f in
            let d : i ≢ j = λ z. null_block (sym p ∙ ap address (sym z) ∙ fresh) f in
            (j, g, ground arith)
      ]

      pub alloc-IsOwned : IsOwned (update address i b) gone (update ints b (some (vals i)))
      alloc-IsOwned = record {
        owns = alloc-owns;
        apart = alloc-apart;
        owned = alloc-owned;
        null = ground (arith, null);
      }

    -- `malloc` in thread `i` returns `p`, which may be NULL.
    pub malloc-IsOwned :
        (i p : ℕ)
        → address i ≡ 0
        → gone i ≡ false
        → (p ≢ 0 → ints p ≡ none)
        → IsOwned (update address i p) gone (if p == 0 then ints else update ints p (some (vals i)))
    malloc-IsOwned i p fresh here unused = elim (ℕ_discrete p 0) [
      | yes z ↦
          let null : (p == 0) ≡ true = ground arith in
          let same : update address i p ≡ address =
            ap (update address i) (z ∙ sym fresh) ∙ update_same address i in
          rw (null, same) o
      | no d ↦
          let block : (p == 0) ≡ false = ground arith in
          rw block (alloc-IsOwned i p fresh here d (unused d))
    ]

    -- `free` of the block of thread `k`, which may have none.
    module _ (k : ℕ) (gone' : ℕ → Bool) (here : gone k ≡ false)
        (same : (j : ℕ) → k ≢ j → gone' j ≡ gone j) (there : gone' k ≡ true) where
      still : (j : ℕ) → gone' j ≡ false → (k ≢ j) × (gone j ≡ false)
      still j g =
          let d : k ≢ j = λ e. true≢false (sym there ∙ ap gone' e ∙ g) in (d, sym (same j d) ∙ g)

      other_block : (j : ℕ) → address j ≢ 0 → gone' j ≡ false → address k ≢ address j
      other_block j n g e = let (d, h) = still j g in d (apart k j (λ z. n (sym e ∙ z)) here h e)

      free-owned :
          (a v : ℕ)
          → update ints (address k) none a ≡ some v
          → (j : ℕ) × (gone' j ≡ false) × (address j ≡ a)
      free-owned a v e =
          let d : address k ≢ a = λ z. ground arith in
          let (j, g, p) = owned a v (ground arith) in
          let k_not : k ≢ j = λ z. d (ap address z ∙ p) in (j, same j k_not ∙ g, p)

      pub free-IsOwned : IsOwned address gone' (update ints (address k) none)
      free-IsOwned = record {
        owns = λ j n g.
            let (d, h) = still j g in let o = other_block j n g in ground (arith, owns j n h);
        apart = λ i j n g h e. apart i j n (still i g).1 (still j h).1 e;
        owned = free-owned;
        null = ground (arith, null);
      }
