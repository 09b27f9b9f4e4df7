-- ===== src/Base/Group.antt =====
-- `Map<string, A[]>` as its entries in order of insertion, and items gathered under their keys.
use mathlib.Core.Path.{◌≡◌, refl, ap, sym, ◌∙◌}
use mathlib.Core.Bool.{Bool, false, ◌||◌}
use mathlib.Core.List.{List, [], ◌∷◌, ◌++◌, append_assoc, append-nil}
use mathlib.Core.Option.{Option, none, some}
use mathlib.Core.Logic.{inl, inr}
use Prim.Native.Nat.{◌+◌}
use native.Mathlib.Omega.{arith}
use proxy_pool_architect.Base.Tests.{if◌then◌else◌, is_some, Bool-cases}
use proxy_pool_architect.Base.Lists.{filter, sum_by, All, All-map, any, length, length-append}
use proxy_pool_architect.Base.Text.{Text, text_beq, text_beq_iff, has}

abbrev pub is_key : Text → Option Text → Bool
is_key x none = false
is_key x (some k) = text_beq k x

module _ {A : Type 0} where
  -- `const group = m.get(key) ?? []; group.push(item); m.set(key, group)`
  abbrev pub push : Text → A → List (Text × List A) → List (Text × List A)
  push key item [] = (key, item ∷ []) ∷ []
  push key item ((k, group) ∷ m) =
      if text_beq k key then (k, group ++ item ∷ []) ∷ m else (k, group) ∷ push key item m

  -- `m.get(key) ?? []`
  abbrev pub get : Text → List (Text × List A) → List A
  get key [] = []
  get key ((k, group) ∷ m) = if text_beq k key then group else get key m

  abbrev pub keys : List (Text × List A) → List Text
  keys [] = []
  keys ((k, group) ∷ m) = k ∷ keys m

  abbrev pub HasUniqueKeys : List (Text × List A) → Type 0
  HasUniqueKeys [] = Unit
  HasUniqueKeys ((k, group) ∷ m) = (has k (keys m) ≡ false) × HasUniqueKeys m

  pub has-push :
      (x key : Text) (item : A) (m : List (Text × List A))
      → has x (keys (push key item m)) ≡ (has x (keys m) || text_beq key x)
  has-push x key item [] = ground arith
  has-push x key item ((k, group) ∷ m) =
      ground (arith, has-push x key item m, text_beq_iff k key, text_beq_iff k x)

  pub get-push :
      (x key : Text) (item : A) (m : List (Text × List A))
      → get x (push key item m) ≡ (if text_beq key x then get x m ++ item ∷ [] else get x m)
  get-push x key item [] = ground arith
  get-push x key item ((k, group) ∷ m) =
      ground
        (arith, get-push x key item m, text_beq_iff k key, text_beq_iff k x, text_beq_iff key x)

  pub push-HasUniqueKeys :
      (key : Text) (item : A) (m : List (Text × List A))
      → HasUniqueKeys m
      → HasUniqueKeys (push key item m)
  push-HasUniqueKeys key item [] u = (refl, tt)
  push-HasUniqueKeys key item ((k, group) ∷ m) u = elim (Bool-cases (text_beq k key)) [
    | inl e ↦ rw e u
    | inr e ↦ rw e (
      ground (arith, has-push k key item m, text_beq_iff key k, text_beq_iff k key),
      push-HasUniqueKeys key item m u.1,
    )
  ]

  -- An entry is the one that `get` finds.
  get-cons :
      (k : Text) (group : List A) (n m : List (Text × List A))
      → has k (keys m) ≡ false
      → All (λ e. e.1 ≡ get e.0 n) m
      → All (λ e. e.1 ≡ get e.0 ((k, group) ∷ n)) m
  get-cons k group n [] u h = tt
  get-cons k group n ((j, other) ∷ m) u h = (
    ground (arith, text_beq_iff j k, text_beq_iff k j, h.0),
    get-cons k group n m (ground arith) h.1,
  )

  pub get-entries : (m : List (Text × List A)) → HasUniqueKeys m → All (λ e. e.1 ≡ get e.0 m) m
  get-entries [] u = tt
  get-entries ((k, group) ∷ m) u =
      (ground (arith, text_beq_iff k k), get-cons k group m m u.0 (get-entries m u.1))

  pub sum_by-keys :
      (x : Text) (m : List (Text × List A))
      → HasUniqueKeys m
      → sum_by (λ e. if text_beq e.0 x then 1 else 0) m ≡ (if has x (keys m) then 1 else 0)
  sum_by-keys x [] u = refl
  sum_by-keys x ((k, group) ∷ m) u = ground (arith, sum_by-keys x m u.1, text_beq_iff k x)

  sum_by-length-push :
      (key : Text) (item : A) (m : List (Text × List A))
      → sum_by (λ e. length e.1) (push key item m) ≡ sum_by (λ e. length e.1) m + 1
  sum_by-length-push key item [] = refl
  sum_by-length-push key item ((k, group) ∷ m) =
      ground (arith, length-append group (item ∷ []), sum_by-length-push key item m)

  -- An item with no key goes into no group.
  abbrev pub push_if : Option Text → A → List (Text × List A) → List (Text × List A)
  push_if none item m = m
  push_if (some k) item m = push k item m

  push_if-HasUniqueKeys :
      (key : Option Text) (item : A) (m : List (Text × List A))
      → HasUniqueKeys m
      → HasUniqueKeys (push_if key item m)
  push_if-HasUniqueKeys none item m u = u
  push_if-HasUniqueKeys (some k) item m u = push-HasUniqueKeys k item m u

  get-push_if :
      (x : Text) (key : Option Text) (item : A) (m : List (Text × List A))
      → get x (push_if key item m) ≡ (if is_key x key then get x m ++ item ∷ [] else get x m)
  get-push_if x none item m = refl
  get-push_if x (some k) item m = get-push x k item m

  has-push_if :
      (x : Text) (key : Option Text) (item : A) (m : List (Text × List A))
      → has x (keys (push_if key item m)) ≡ (has x (keys m) || is_key x key)
  has-push_if x none item m = ground arith
  has-push_if x (some k) item m = has-push x k item m

  sum_by-length-push_if :
      (key : Option Text) (item : A) (m : List (Text × List A))
      → sum_by (λ e. length e.1) (push_if key item m)
        ≡ sum_by (λ e. length e.1) m + (if is_some key then 1 else 0)
  sum_by-length-push_if none item m = omega arith
  sum_by-length-push_if (some k) item m = sum_by-length-push k item m

  module _ (key : A → Option Text) where
    -- `items.forEach(item => ...)` from a map that is there already
    unfoldable pub group_from : List (Text × List A) → List A → List (Text × List A)
    group_from m [] = m
    group_from m (item ∷ items) = group_from (push_if (key item) item m) items

    pub group_from-HasUniqueKeys :
        (m : List (Text × List A)) (items : List A)
        → HasUniqueKeys m
        → HasUniqueKeys (group_from m items)
    unfolding group_from
    group_from-HasUniqueKeys m [] u = u
    group_from-HasUniqueKeys m (item ∷ items) u =
        group_from-HasUniqueKeys (push_if (key item) item m) items
          (push_if-HasUniqueKeys (key item) item m u)

    pub get-group_from :
        (x : Text) (m : List (Text × List A)) (items : List A)
        → get x (group_from m items) ≡ get x m ++ filter (λ item. is_key x (key item)) items
    unfolding group_from
    get-group_from x m [] = sym (append-nil _)
    get-group_from x m (item ∷ items) =
        get-group_from x (push_if (key item) item m) items
        ∙ (ground (
          arith,
          get-push_if x (key item) item m,
          append_assoc (get x m) (item ∷ []) (filter (λ i. is_key x (key i)) items),
        ))

    pub has-group_from :
        (x : Text) (m : List (Text × List A)) (items : List A)
        → has x (keys (group_from m items))
          ≡ (has x (keys m) || any (λ item. is_key x (key item)) items)
    unfolding group_from
    has-group_from x m [] = ground arith
    has-group_from x m (item ∷ items) =
        has-group_from x (push_if (key item) item m) items
        ∙ ground (arith, has-push_if x (key item) item m)

    -- The groups of a list: each holds the items of its key, in their order.
    unfoldable pub group_by : List A → List (Text × List A)
    unfolding group_from
    group_by items = group_from [] items

    pub group_by-HasUniqueKeys : (items : List A) → HasUniqueKeys (group_by items)
    unfolding group_by
    group_by-HasUniqueKeys items = group_from-HasUniqueKeys [] items tt

    pub group_by-entries :
        (items : List A)
        → All (λ e. e.1 ≡ filter (λ item. is_key e.0 (key item)) items) (group_by items)
    unfolding group_by
    group_by-entries items =
        All-map (group_by items) (λ e h. h ∙ get-group_from e.0 [] items)
          (get-entries (group_by items) (group_by-HasUniqueKeys items))

    -- Each key that an item has is the key of one group, and no other text is.
    pub sum_by-group_by :
        (x : Text) (items : List A)
        → sum_by (λ e. if text_beq e.0 x then 1 else 0) (group_by items)
          ≡ (if any (λ item. is_key x (key item)) items then 1 else 0)
    unfolding group_by
    sum_by-group_by x items =
        sum_by-keys x (group_by items) (group_by-HasUniqueKeys items)
        ∙ ap (λ b. if b then 1 else 0) (has-group_from x [] items)

    sum_by-length-group_from :
        (m : List (Text × List A)) (items : List A)
        → sum_by (λ e. length e.1) (group_from m items)
          ≡ sum_by (λ e. length e.1) m + length (filter (λ item. is_some (key item)) items)
    unfolding group_from
    sum_by-length-group_from m [] = omega arith
    sum_by-length-group_from m (item ∷ items) = ground (
      arith,
      sum_by-length-push_if (key item) item m,
      sum_by-length-group_from (push_if (key item) item m) items,
    )

    pub sum_by-length-group_by :
        (items : List A)
        → sum_by (λ e. length e.1) (group_by items)
          ≡ length (filter (λ item. is_some (key item)) items)
    unfolding group_by
    sum_by-length-group_by items = omega (arith, sum_by-length-group_from [] items)
