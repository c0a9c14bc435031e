-- ===== src/IpDefragmenter/Eviction.antt =====
-- The collector of incomplete datagrams.
use nethex.Base.{
  ℕ, ◌+◌, ◌<◌, false, ◌≡◌, ◌↔◌, refl, subst, sym, ap, ◌∙◌, inl, inr, true, [], ◌∷◌, Option, none,
  some, Bool-cases, arith, if◌then◌else◌,
}
use nethex.Base.Table.{lookup, Distinct}
use nethex.IpDefragmenter.{
  FragmentKey, same_key, FragmentBuffer, FragmentTable, IpDefragmenter, is_stale, evict_from,
  evict_stale_fragments,
}

pub same_key_iff : (a b : FragmentKey) → (same_key a b ≡ true) ↔ (a ≡ b)
unfolding same_key
same_key_iff a b = (λ h. ground arith, λ e. ground arith)

-- What a buffer is to the collector.
abbrev unless_stale : ℕ → Option FragmentBuffer → Option FragmentBuffer
unless_stale now none = none
unless_stale now (some buf) = if is_stale now buf then none else some buf

lookup-evict_from :
    (now : ℕ) (t : FragmentTable) (k : FragmentKey)
    → Distinct same_key t
    → lookup same_key k (evict_from now t) ≡ unless_stale now (lookup same_key k t)
unfolding evict_from
lookup-evict_from now [] k d = refl
lookup-evict_from now ((j, buf) ∷ t) k d =
    let rest = lookup-evict_from now t k d.1 in
    let absent : same_key j k ≡ true → lookup same_key k t ≡ none =
      λ same. sym (ap (λ x. lookup same_key x t) ((same_key_iff j k).0 same)) ∙ d.0 in
    elim (Bool-cases (same_key j k)) [
      | inl same ↦ elim (Bool-cases (is_stale now buf)) [
        | inl stale ↦ rw (same, stale) (rest ∙ ap (unless_stale now) (absent same))
        | inr young ↦ rw (young, same, unless_stale, young) refl
      ]
      | inr other ↦ elim (Bool-cases (is_stale now buf)) [
        | inl stale ↦ rw (other, stale) rest
        | inr young ↦ rw (young, other) rest
      ]
    ]

-- The test, in nanoseconds.
is_stale_iff :
    (now : ℕ) (buf : FragmentBuffer)
    → (is_stale now buf ≡ false) ↔ (now < buf.first_seen + 31_000_000_000)
is_stale_iff now buf = (λ h. ground (arith, h), λ h. ground (arith, h))

unless_stale_iff :
    (now : ℕ) (o : Option FragmentBuffer) (buf : FragmentBuffer)
    → (unless_stale now o ≡ some buf) ↔ ((o ≡ some buf) × (now < buf.first_seen + 31_000_000_000))
unless_stale_iff now none buf = (λ h. absurd (cc), λ h. absurd (let e = h.0 in cc))
unless_stale_iff now (some b) buf = elim (Bool-cases (is_stale now b)) [
  | inl stale ↦
      rw (unless_stale, stale)
        (
          λ h. absurd (cc),
          λ (e, young).
              let same : b ≡ buf = cc in
              let kept : is_stale now b ≡ false =
                ap (is_stale now) same ∙ (is_stale_iff now buf).1 young in
              absurd (let both : true ≡ false = sym stale ∙ kept in cc),
        )
  | inr young ↦
      rw (unless_stale, young)
        (
          λ h.
              let same : b ≡ buf = cc in
              (h, (is_stale_iff now buf).0 (sym (ap (is_stale now) same) ∙ young)),
          λ h. h.0,
        )
]

evict_from-Distinct :
    (now : ℕ) (t : FragmentTable) → Distinct same_key t → Distinct same_key (evict_from now t)
unfolding evict_from
evict_from-Distinct now [] d = tt
evict_from-Distinct now ((j, buf) ∷ t) d = elim (Bool-cases (is_stale now buf)) [
  | inl stale ↦ rw stale (evict_from-Distinct now t d.1)
  | inr young ↦
      rw (young, Distinct)
        (lookup-evict_from now t j d.1 ∙ ap (unless_stale now) d.0, evict_from-Distinct now t d.1)
]

-- In a table with one buffer to a key, a buffer is there after `evict_stale_fragments`, as it was,
-- exactly if it was there before and was begun less than 31 seconds ago, in nanoseconds of the clock:
-- that is when its age in whole seconds is no more than 30. No key has two buffers then, and the
-- datagram that was handed over last is left alone.
pub evict_stale_fragments_iff :
    (d : IpDefragmenter) (now : ℕ)
    → Distinct same_key d.buffers
    → ((k : FragmentKey) (buf : FragmentBuffer)
        → (lookup same_key k (evict_stale_fragments d now).buffers ≡ some buf)
          ↔ ((lookup same_key k d.buffers ≡ some buf) × (now < buf.first_seen + 31_000_000_000)))
      × Distinct same_key (evict_stale_fragments d now).buffers
      × ((evict_stale_fragments d now).completed_datagram ≡ d.completed_datagram)
unfolding evict_stale_fragments
evict_stale_fragments_iff d now distinct = (
  λ k buf.
      subst
        (λ (o : Option FragmentBuffer).
          (o ≡ some buf)
          ↔ ((lookup same_key k d.buffers ≡ some buf) × (now < buf.first_seen + 31_000_000_000)))
        (sym (lookup-evict_from now d.buffers k distinct))
        (unless_stale_iff now (lookup same_key k d.buffers) buf),
  evict_from-Distinct now d.buffers distinct,
  refl,
)
