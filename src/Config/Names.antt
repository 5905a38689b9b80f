-- ===== src/Config/Names.antt =====
-- Ports by name and by identifier: the lookups of Config agree.
use mathlib.Core.Path.{subst}
use mathlib.Core.Option.{some-injective}
use mathlib.Core.List.{head-eq_of_cons-eq, tail-eq_of_cons-eq}
use tee_io_validator.Common.{
  ℕ, Bool, true, false, ◌&&◌, List, [], ◌∷◌, some, ◌≡◌, ◌≢◌, ◌↔◌, inl, inr, refl, sym, ap, ◌∙◌,
  arith, All, ◌==◌, Bool-cases, Option-cases, ==_iff,
}
use tee_io_validator.Config.{
  IdePort, IdeTestConfig, same_text, find_first, get_port_by_id, get_port_by_name, is_valid_port,
  get_port_id_from_name,
}

same_text_iff : (xs ys : List ℕ) → (same_text xs ys ≡ true) ↔ (xs ≡ ys)
unfolding same_text
same_text_iff [] [] = (λ h. refl, λ h. refl)
same_text_iff [] (y ∷ ys) = (λ h. cc, λ h. cc)
same_text_iff (x ∷ xs) [] = (λ h. cc, λ h. cc)
same_text_iff (x ∷ xs) (y ∷ ys) = elim (Bool-cases (x == y)) [
  | inl same ↦
      let e : x ≡ y = ground arith in
      (
        λ h. rw (e, (same_text_iff xs ys).0 (sym (rw (same_text, same) refl) ∙ h)) refl,
        λ h. rw (same_text, same) ((same_text_iff xs ys).1 (tail-eq_of_cons-eq h)),
      )
  | inr other ↦ (
    λ h. absurd (let e : false ≡ true = sym (rw (same_text, other) refl) ∙ h in cc),
    λ h. absurd (let e : x ≡ y = head-eq_of_cons-eq h in ground arith),
  )
]

-- No two ports have one identifier.
abbrev pub UniqueIds : List IdePort → Type 0
UniqueIds [] = Unit
UniqueIds (p ∷ ps) = All (λ q. q.id ≢ p.id) ps × UniqueIds ps

find_first-head :
    (test : IdePort → Bool) (q : IdePort) (ps : List IdePort)
    → test q ≡ true
    → find_first test (q ∷ ps) ≡ some q
unfolding find_first
find_first-head test q ps h = rw (find_first, h) refl

find_first-All :
    (Q : IdePort → Type 0) (test : IdePort → Bool) (ps : List IdePort) (p : IdePort)
    → find_first test ps ≡ some p
    → All Q ps
    → Q p
unfolding find_first
find_first-All Q test [] p h a = absurd cc
find_first-All Q test (q ∷ ps) p h (a, rest) = elim (Bool-cases (test q)) [
  | inl found ↦ subst Q (some-injective _ _ (sym (rw (find_first, found) refl) ∙ h)) a
  | inr other ↦ find_first-All Q test ps p (sym (rw (find_first, other) refl) ∙ h) rest
]

-- The first port of a name, if it is enabled, is also the first enabled one of the name, and the
-- first enabled one of its identifier.
find_first-agree :
    (name : List ℕ) (ps : List IdePort) (p : IdePort)
    → UniqueIds ps
    → find_first (λ q. same_text q.port_name name) ps ≡ some p
    → p.enabled ≡ true
    → (find_first (λ q. same_text q.port_name name && q.enabled) ps ≡ some p)
      × (find_first (λ q. (q.id == p.id) && q.enabled) ps ≡ some p)
      × (p.port_name ≡ name)
unfolding find_first
find_first-agree name [] p u h en = absurd cc
find_first-agree name (q ∷ ps) p (apart, u) h en = elim (Bool-cases (same_text q.port_name name)) [
  | inl found ↦
      let e : q ≡ p = some-injective _ _ (sym (rw (find_first, found) refl) ∙ h) in
      let on : q.enabled ≡ true = rw e en in
      let own : (q.id == p.id) ≡ true = rw e ((==_iff p.id p.id).1 refl) in
      (
        find_first-head (λ r. same_text r.port_name name && r.enabled) q ps (rw (found, on) refl)
            ∙ ap some e,
        find_first-head (λ r. (r.id == p.id) && r.enabled) q ps (rw (own, on) refl) ∙ ap some e,
        ap (λ (r : IdePort). r.port_name) (sym e) ∙ (same_text_iff q.port_name name).0 found,
      )
  | inr other ↦
      let rest : find_first (λ q. same_text q.port_name name) ps ≡ some p =
        sym (rw (find_first, other) refl) ∙ h in
      let (a, b, c) = find_first-agree name ps p u rest en in
      let ne : p.id ≢ q.id = find_first-All (λ r. r.id ≢ q.id) _ ps p rest apart in
      let skip : (q.id == p.id) ≡ false = ground arith in
      (rw (find_first, other) a, rw (find_first, skip) b, c)
]

-- With distinct identifiers, an identifier that a name gives (not INVALID_PORT_ID) leads to an
-- enabled port of that name, the same that the lookup by name finds, and the name is valid.
pub get_port_id_from_name-get_port_by_id :
    (config : IdeTestConfig) (name : List ℕ) (id : ℕ)
    → UniqueIds config.ports_config
    → get_port_id_from_name (some config.ports_config) (some name) ≡ id
    → id ≢ 0
    → (p : IdePort) × (get_port_by_id (some config) id ≡ some p)
      × (get_port_by_name (some config) (some name) ≡ some p)
      × (is_valid_port (some config.ports_config) (some name) ≡ true)
      × (p.enabled ≡ true)
      × (p.id ≡ id)
      × (p.port_name ≡ name)
unfolding get_port_id_from_name get_port_by_id get_port_by_name is_valid_port
get_port_id_from_name-get_port_by_id config name id u h nonzero =
    elim (Option-cases (find_first (λ p. same_text p.port_name name) config.ports_config)) [
      | inl nothing ↦ absurd (nonzero (sym h ∙ rw (get_port_id_from_name, nothing) refl))
      | inr (p, found) ↦ elim (Bool-cases p.enabled) [
        | inr off ↦ absurd (nonzero (sym h ∙ rw (get_port_id_from_name, found, off) refl))
        | inl on ↦
            let same : p.id ≡ id = sym (rw (get_port_id_from_name, found, on) refl) ∙ h in
            let (a, b, c) = find_first-agree name config.ports_config p u found on in
            let present : (id == 0) ≡ false = ground arith in
            (
              p,
              rw (get_port_by_id, present) (rw (← same) b),
              a,
              rw (is_valid_port, found) on,
              on,
              same,
              c,
            )
      ]
    ]
