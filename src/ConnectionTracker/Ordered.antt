-- ===== src/ConnectionTracker/Ordered.antt =====
-- Lists of flows in the order in which they were last seen, from the front and from the back.
use nethex.Base.{
  ℕ, ◌≤◌, ◌≡◌, refl, sym, ap, subst, [], ◌∷◌, ◌++◌, Option, none, some, arith, Bool-cases, inl, inr,
  ◌==◌, ==_refl, All, All-snoc,
}
use mathlib.Core.List.{reverse, reverse-cons}
use nethex.Base.Table.{erase, Distinct}
use nethex.FiveTuple.{FiveTuple}
use nethex.ConnectionTracker.{TrackedFlow, FlowTable, LruList, find_flow}
use nethex.ConnectionTracker.Linked.{find_node}

abbrev pub seen : Option TrackedFlow → ℕ
seen none = 0
seen (some f) = f.conn.last_seen

-- When a flow was last seen.
abbrev pub last_seen : FlowTable → FiveTuple → ℕ
last_seen table k = seen (find_flow k table)

module _ (time : FiveTuple → ℕ) where
  -- From the front of the list, and from its back.
  abbrev pub Falling : LruList → Type 0
  Falling [] = Unit
  Falling ((id, k) ∷ older) = All (λ (e : ℕ × FiveTuple). time e.1 ≤ time k) older × Falling older

  abbrev pub Rising : LruList → Type 0
  Rising [] = Unit
  Rising ((id, k) ∷ newer) = All (λ (e : ℕ × FiveTuple). time k ≤ time e.1) newer × Rising newer

  Rising-snoc :
      (id : ℕ) (k : FiveTuple) (l : LruList)
      → Rising l
      → All (λ (e : ℕ × FiveTuple). time e.1 ≤ time k) l
      → Rising (l ++ ((id, k) ∷ []))
  Rising-snoc id k [] r h = (tt, tt)
  Rising-snoc id k ((i, j) ∷ l) r h = (
    All-snoc (λ (e : ℕ × FiveTuple). time j ≤ time e.1) l (id, k) r.0 h.0,
    Rising-snoc id k l r.1 h.1,
  )

  Falling-snoc :
      (id : ℕ) (k : FiveTuple) (l : LruList)
      → Falling l
      → All (λ (e : ℕ × FiveTuple). time k ≤ time e.1) l
      → Falling (l ++ ((id, k) ∷ []))
  Falling-snoc id k [] r h = (tt, tt)
  Falling-snoc id k ((i, j) ∷ l) r h = (
    All-snoc (λ (e : ℕ × FiveTuple). time e.1 ≤ time j) l (id, k) r.0 h.0,
    Falling-snoc id k l r.1 h.1,
  )

pub All-reverse : (P : ℕ × FiveTuple → Type 0) (l : LruList) → All P l → All P (reverse l)
All-reverse P [] h = tt
All-reverse P (x ∷ l) h = rw (reverse-cons x l) (All-snoc P (reverse l) x (All-reverse P l h.1) h.0)

pub Falling-reverse :
    (time : FiveTuple → ℕ) (l : LruList) → Falling time l → Rising time (reverse l)
Falling-reverse time [] h = tt
Falling-reverse time ((id, k) ∷ l) h = rw (reverse-cons (id, k) l) (
    Rising-snoc time id k (reverse l) (Falling-reverse time l h.1)
      (All-reverse (λ (e : ℕ × FiveTuple). time e.1 ≤ time k) l h.0))

pub Rising-reverse : (time : FiveTuple → ℕ) (l : LruList) → Rising time l → Falling time (reverse l)
Rising-reverse time [] h = tt
Rising-reverse time ((id, k) ∷ l) h = rw (reverse-cons (id, k) l) (
    Falling-snoc time id k (reverse l) (Rising-reverse time l h.1)
      (All-reverse (λ (e : ℕ × FiveTuple). time k ≤ time e.1) l h.0))

-- Times that agree on the flows of the list.
pub All-eq :
    (time time' : FiveTuple → ℕ) (P : ℕ → Type 0) (l : LruList)
    → All (λ (e : ℕ × FiveTuple). time' e.1 ≡ time e.1) l
    → All (λ (e : ℕ × FiveTuple). P (time e.1)) l
    → All (λ (e : ℕ × FiveTuple). P (time' e.1)) l
All-eq time time' P [] same h = tt
All-eq time time' P ((i, j) ∷ l) same h =
    (subst P (sym same.0) h.0, All-eq time time' P l same.1 h.1)

pub Falling-eq :
    (time time' : FiveTuple → ℕ) (l : LruList)
    → All (λ (e : ℕ × FiveTuple). time' e.1 ≡ time e.1) l
    → Falling time l
    → Falling time' l
Falling-eq time time' [] same h = tt
Falling-eq time time' ((i, j) ∷ l) same h = (
  All-eq time time' (λ (n : ℕ). n ≤ time' j) l same.1
      (subst (λ (n : ℕ). All (λ (e : ℕ × FiveTuple). time e.1 ≤ n) l) (sym same.0) h.0),
  Falling-eq time time' l same.1 h.1,
)

pub Rising-eq :
    (time time' : FiveTuple → ℕ) (l : LruList)
    → All (λ (e : ℕ × FiveTuple). time' e.1 ≡ time e.1) l
    → Rising time l
    → Rising time' l
Rising-eq time time' [] same h = tt
Rising-eq time time' ((i, j) ∷ l) same h = (
  All-eq time time' (λ (n : ℕ). time' j ≤ n) l same.1
      (subst (λ (n : ℕ). All (λ (e : ℕ × FiveTuple). n ≤ time e.1) l) (sym same.0) h.0),
  Rising-eq time time' l same.1 h.1,
)

pub All-erase :
    (P : ℕ × FiveTuple → Type 0) (it : ℕ) (l : LruList) → All P l → All P (erase ◌==◌ it l)
All-erase P it [] h = tt
All-erase P it ((i, j) ∷ l) h = elim (Bool-cases (i == it)) [
  | inl same ↦ rw (same, erase) h.1
  | inr other ↦ rw (other, erase) (h.0, All-erase P it l h.1)
]

pub Falling-erase :
    (time : FiveTuple → ℕ) (it : ℕ) (l : LruList) → Falling time l → Falling time (erase ◌==◌ it l)
Falling-erase time it [] h = tt
Falling-erase time it ((i, j) ∷ l) h = elim (Bool-cases (i == it)) [
  | inl same ↦ rw (same, erase) h.1
  | inr other ↦
      rw (other, erase)
        (All-erase (λ (e : ℕ × FiveTuple). time e.1 ≤ time j) it l h.0, Falling-erase time it l h.1)
]

-- What holds of each node that is found holds of each node.
pub all_nodes :
    (P : FiveTuple → Type 0) (l : LruList)
    → Distinct ◌==◌ l
    → ((i : ℕ) (j : FiveTuple) → find_node i l ≡ some j → P j)
    → All (λ (e : ℕ × FiveTuple). P e.1) l
all_nodes P [] d h = tt
all_nodes P ((id, k) ∷ l) d h = (
  h id k (rw (==_refl id) refl),
  all_nodes P l d.1
      (λ i j e. h i j (ground (arith, d.0, ap (λ x. find_node x l) {x = id} {y = i}))),
)
