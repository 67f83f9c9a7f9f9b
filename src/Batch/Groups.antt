-- ===== src/Batch/Groups.antt =====
-- Facts about reading and writing the items of a batch's groups.
use api_elrond_com.Common.{
  ◌⊎◌, inl, inr, get_elem?-set_ne, ℕ, zero, suc, ◌<◌, ◌≡◌, refl, ◌≢◌, ap, true, some, List, [], ◌∷◌,
  all, length, get_elem?, set, arith,
}
use api_elrond_com.Batch.{TransactionBatchItem, TransactionBatchGroup, is_success, items_at}

pub items_at-set_self :
    (gs : List TransactionBatchGroup) (i : ℕ) (items : List TransactionBatchItem)
    → i < length gs
    → items_at (set gs i (record { items = items })) i ≡ items
items_at-set_self [] i items h = elim h [ ]
items_at-set_self (g ∷ gs) zero items h = refl
items_at-set_self (g ∷ gs) (suc i) items h = items_at-set_self gs i items (omega arith)

pub items_at-set_ne :
    (gs : List TransactionBatchGroup) (i k : ℕ) (g : TransactionBatchGroup)
    → i ≢ k
    → items_at (set gs i g) k ≡ items_at gs k
items_at-set_ne [] i k g h = refl
items_at-set_ne (x ∷ gs) zero zero g h = absurd (h refl)
items_at-set_ne (x ∷ gs) zero (suc k) g h = refl
items_at-set_ne (x ∷ gs) (suc i) zero g h = refl
items_at-set_ne (x ∷ gs) (suc i) (suc k) g h = items_at-set_ne gs i k g (λ e. h (ap suc e))

pub lt_of_get_elem? :
    (gs : List TransactionBatchGroup) (i j : ℕ) {item : TransactionBatchItem}
    → get_elem? (items_at gs i) j ≡ some item
    → i < length gs
lt_of_get_elem? [] i j h = cc
lt_of_get_elem? (g ∷ gs) zero j h = omega arith
lt_of_get_elem? (g ∷ gs) (suc i) j h = omega (arith, lt_of_get_elem? gs i j h)

-- A successful item keeps a list of successful items successful.
pub all-set_success :
    (items : List TransactionBatchItem) (j : ℕ) (item : TransactionBatchItem)
    → is_success item.status ≡ true
    → all (λ x. is_success x.status) items ≡ true
    → all (λ x. is_success x.status) (set items j item) ≡ true
all-set_success [] j item s h = refl
all-set_success (x ∷ items) zero item s h = ground arith
all-set_success (x ∷ items) (suc j) item s h = ground (arith, all-set_success items j item s)

-- A write of one item leaves the items at other places.
pub get_elem?-items_at-set_ne :
    (gs : List TransactionBatchGroup) (i j k l : ℕ) (item : TransactionBatchItem)
    → (i ≢ k) ⊎ (j ≢ l)
    → get_elem? (items_at (set gs i (record { items = set (items_at gs i) j item })) k) l
      ≡ get_elem? (items_at gs k) l
get_elem?-items_at-set_ne gs i j k l item (inl h) =
    ap (λ xs. get_elem? xs l)
      (items_at-set_ne gs i k (record { items = set (items_at gs i) j item }) h)
get_elem?-items_at-set_ne [] i j k l item (inr h) = refl
get_elem?-items_at-set_ne (g ∷ gs) zero j zero l item (inr h) = get_elem?-set_ne g.items j l item h
get_elem?-items_at-set_ne (g ∷ gs) zero j (suc k) l item (inr h) = refl
get_elem?-items_at-set_ne (g ∷ gs) (suc i) j zero l item (inr h) = refl
get_elem?-items_at-set_ne (g ∷ gs) (suc i) j (suc k) l item (inr h) =
    get_elem?-items_at-set_ne gs i j k l item (inr h)
