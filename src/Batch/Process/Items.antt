-- ===== src/Batch/Process/Items.antt =====
-- The inner loop at a group of which one item has the hash that is reported.
use api_elrond_com.Common.{
  ℕ, zero, suc, ◌+◌, ◌<◌, ◌≤◌, ◌≡◌, ◌≢◌, refl, subst, sym, ap, ◌∙◌, String, true, false, some, List,
  [], ◌∷◌, get_elem?, set, length, length-set, leb, Option-cases, arith, inl, inr,
}
use native.Mathlib.Decide.{ℕ_discrete}
use api_elrond_com.Batch.{
  BatchTransactionStatus, TransactionBatchStatus, TransactionBatchItem, TransactionBatch, items_at,
}
use api_elrond_com.Batch.Groups.{get_elem?-items_at-set_ne, items_at-set_self}
use api_elrond_com.Batch.World.{Outcome, ok, thrown, M, ◌>>=◌, World, Env, transaction_batch_key}
use api_elrond_com.Batch.Process.{
  set_status, with_status, all_success, is_batch_pending, advance, finish_group, save_at, is_hash,
  update_item, visit_item, visit_items,
}

pub bind_ok :
    {B P A C : Type 0} (m : M B P A) (k : A → M B P C) (w : World B P) {a : A} {w' : World B P}
    → m w ≡ (ok a, w')
    → (m >>= k) w ≡ k a w'
bind_ok {B} {P} {A} {C} m k w e =
    ap
      (λ (r : Outcome A × World B P). elim (r.0) as (λ x. Outcome C × World B P) [
        | ok a ↦ k a (r.1)
        | thrown f ↦ (thrown f, r.1)
      ])
      e

module _ {B P : Type 0} (env : Env B P) (tx_hash batch_id address : String) where
  -- No item from `j` on in the group at `i` has the hash.
  abbrev pub LacksFrom : ℕ → ℕ → TransactionBatch → Type 0
  LacksFrom i j b =
      (k : ℕ) (item : TransactionBatchItem)
      → j ≤ k
      → get_elem? (items_at b.groups i) k ≡ some item
      → is_hash env tx_hash batch_id address BatchTransactionStatus.success item ≡ false

  visit_item_skip_at :
      (i j : ℕ) (b : TransactionBatch) (w : World B P)
      → ((item : TransactionBatchItem)
          → get_elem? (items_at b.groups i) j ≡ some item
          → is_hash env tx_hash batch_id address BatchTransactionStatus.success item ≡ false)
      → visit_item env tx_hash batch_id address BatchTransactionStatus.success i j b w ≡ (ok b, w)
  unfolding visit_item
  visit_item_skip_at i j b w lacks = elim (Option-cases (get_elem? (items_at b.groups i) j)) [
    | inl missing ↦ rw (missing, visit_item) refl
    | inr (item, there) ↦ rw (there, lacks item there, visit_item) refl
  ]

  visit_item_skip :
      (i j : ℕ) (b : TransactionBatch) (w : World B P)
      → LacksFrom i j b
      → visit_item env tx_hash batch_id address BatchTransactionStatus.success i j b w ≡ (ok b, w)
  visit_item_skip i j b w lacks =
      visit_item_skip_at i j b w (λ item h. lacks j item (omega arith) h)

  pub visit_items_skip :
      (n i j : ℕ) (b : TransactionBatch) (w : World B P)
      → LacksFrom i j b
      → visit_items env tx_hash batch_id address BatchTransactionStatus.success n i j b w
        ≡ (ok b, w)
  unfolding visit_items
  visit_items_skip zero i j b w lacks = refl
  visit_items_skip (suc n) i j b w lacks =
      bind_ok (visit_item env tx_hash batch_id address BatchTransactionStatus.success i j b)
        (visit_items env tx_hash batch_id address BatchTransactionStatus.success n i (suc j)) w
        (visit_item_skip i j b w lacks)
      ∙ visit_items_skip n i (suc j) b w (λ k item h. lacks k item (omega arith))

  abbrev pub succeeded : ℕ → ℕ → TransactionBatchItem → TransactionBatch → TransactionBatch
  succeeded i t item b =
      with_status TransactionBatchStatus.success
        (set_status BatchTransactionStatus.success b i t item)

  abbrev pub saved : TransactionBatch → World B P → World B P
  saved b w = record w {
    batches = env.batches.set (transaction_batch_key address batch_id) b w.batches;
  }

  -- The last group's item `t`, where the others have succeeded or will not be needed.
  update_item-success :
      (i t : ℕ) (item : TransactionBatchItem) (b : TransactionBatch) (w : World B P)
      → is_batch_pending b.status ≡ true
      → i < length b.groups
      → length b.groups ≤ i + 1
      → all_success
          (set (items_at b.groups i) t (record item { status = BatchTransactionStatus.success }))
        ≡ true
      → update_item env tx_hash batch_id address BatchTransactionStatus.success i t item b w
        ≡ (ok (succeeded i t item b), saved (succeeded i t item b) w)
  unfolding update_item advance finish_group save_at
  update_item-success i t item b w pending inside last finished =
      let b' = set_status BatchTransactionStatus.success b i t item in
      let all_done : all_success (items_at b'.groups i) ≡ true =
        rw
          (items_at-set_self b.groups i
            (set (items_at b.groups i) t (record item { status = BatchTransactionStatus.success }))
            inside)
          finished in
      let is_last : leb (length b'.groups) (i + 1) ≡ true = ground (
        arith,
        length-set b.groups i (record {
          items =
              set (items_at b.groups i) t (record item { status = BatchTransactionStatus.success });
        }),
      ) in
      rw (pending, all_done, is_last) refl

  -- Of the group at `i`, the item at `t` alone has the hash.
  abbrev pub IsOnly : ℕ → ℕ → TransactionBatch → Type 0
  IsOnly i t b =
      (k : ℕ) (item : TransactionBatchItem)
      → k ≢ t
      → get_elem? (items_at b.groups i) k ≡ some item
      → is_hash env tx_hash batch_id address BatchTransactionStatus.success item ≡ false

  visit_item-success :
      (i t : ℕ) (item : TransactionBatchItem) (b : TransactionBatch) (w : World B P)
      → get_elem? (items_at b.groups i) t ≡ some item
      → is_hash env tx_hash batch_id address BatchTransactionStatus.success item ≡ true
      → visit_item env tx_hash batch_id address BatchTransactionStatus.success i t b w
        ≡ update_item env tx_hash batch_id address BatchTransactionStatus.success i t item b w
  unfolding visit_item
  visit_item-success i t item b w there same = rw (there, same, visit_item) refl

  succeeded-LacksFrom :
      (i t : ℕ) (item : TransactionBatchItem) (b : TransactionBatch)
      → IsOnly i t b
      → LacksFrom i (suc t) (succeeded i t item b)
  succeeded-LacksFrom i t item b only k x later h =
      let other : t ≢ k = λ e. absurd (omega (arith, e)) in
      only k x (λ e. absurd (omega (arith, e)))
        (sym (
            get_elem?-items_at-set_ne b.groups i t i k
              (record item { status = BatchTransactionStatus.success }) (inr other))
          ∙ h)

  module _ (i t : ℕ) (item : TransactionBatchItem) (b : TransactionBatch) (w : World B P)
      (there : get_elem? (items_at b.groups i) t ≡ some item)
      (same : is_hash env tx_hash batch_id address BatchTransactionStatus.success item ≡ true)
      (only : IsOnly i t b) (pending : is_batch_pending b.status ≡ true)
      (inside : i < length b.groups) (last : length b.groups ≤ i + 1)
      (finished : all_success
          (set (items_at b.groups i) t (record item { status = BatchTransactionStatus.success }))
        ≡ true) where
    pub visit_items-success :
        (n j : ℕ)
        → j ≤ t
        → t < n + j
        → visit_items env tx_hash batch_id address BatchTransactionStatus.success n i j b w
          ≡ (ok (succeeded i t item b), saved (succeeded i t item b) w)
    unfolding visit_items
    visit_items-success zero j before h = absurd (omega arith)
    visit_items-success (suc n) j before h = elim (ℕ_discrete j t) [
      | no differ ↦
          let skipped = visit_item_skip_at i j b w (λ x e. only j x differ e) in
          let earlier : j < t = ground arith in
          bind_ok (visit_item env tx_hash batch_id address BatchTransactionStatus.success i j b)
            (visit_items env tx_hash batch_id address BatchTransactionStatus.success n i (suc j)) w
            skipped
          ∙ visit_items-success n (suc j) earlier (omega (arith, h))
      | yes e ↦
          subst
            (λ k.
              visit_items env tx_hash batch_id address BatchTransactionStatus.success (suc n) i k b
                w
              ≡ (ok (succeeded i t item b), saved (succeeded i t item b) w))
            (sym e)
            (bind_ok (visit_item env tx_hash batch_id address BatchTransactionStatus.success i t b)
                (visit_items env tx_hash batch_id address BatchTransactionStatus.success n i
                  (suc t))
                w
                (visit_item-success i t item b w there same
                  ∙ update_item-success i t item b w pending inside last finished)
              ∙ visit_items_skip n i (suc t) (succeeded i t item b) (saved (succeeded i t item b) w)
                  (succeeded-LacksFrom i t item b only))
    ]

pub get_elem?-lt :
    (items : List TransactionBatchItem) (t : ℕ) {item : TransactionBatchItem}
    → get_elem? items t ≡ some item
    → t < length items
get_elem?-lt [] t h = cc
get_elem?-lt (x ∷ items) zero h = omega arith
get_elem?-lt (x ∷ items) (suc t) h = omega (arith, get_elem?-lt items t h)
