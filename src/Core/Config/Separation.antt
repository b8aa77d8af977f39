-- ===== src/Core/Config/Separation.antt =====
-- Mirrors of one node that pass `target_overlap_errors` of crates/lmt-core/src/config.rs share no
-- path below the root of the mirrors.
use lzu_mirror_tools.Prelude.{
  ◌≡◌, refl, sym, ap, subst, ◌∙◌, true, ◌&&◌, ◌||◌, List, [], ◌∷◌, ◌++◌, arith, Memᴰ, and_eq_true,
}
use lzu_mirror_tools.Prelude.Text.{Text, text_eq, text_eq→eq, text_eq_refl}
use lzu_mirror_tools.Core.Config.{CanonicalMirror, ConfigError}
use lzu_mirror_tools.Core.Config.Targets.{
  Component, root_dir, cur_dir, parent_dir, normal, component_eq, components, starts_with,
  targets_overlap, overlap_error, errors_of, target_overlap_errors,
}

component_eq_sound : (c d : Component) → component_eq c d ≡ true → c ≡ d
unfolding component_eq
component_eq_sound root_dir root_dir h = refl
component_eq_sound cur_dir cur_dir h = refl
component_eq_sound parent_dir parent_dir h = refl
component_eq_sound (normal a) (normal b) h = ap normal (text_eq→eq a b h)
component_eq_sound _ _ h = cc

component_eq_refl : (c : Component) → component_eq c c ≡ true
unfolding component_eq
component_eq_refl root_dir = refl
component_eq_refl cur_dir = refl
component_eq_refl parent_dir = refl
component_eq_refl (normal a) = text_eq_refl a

-- Two prefixes of one path: one is a prefix of the other.
prefixes_compare :
    (p xs ys : List Component)
    → starts_with p xs ≡ true
    → starts_with p ys ≡ true
    → (starts_with xs ys || starts_with ys xs) ≡ true
unfolding starts_with
prefixes_compare p [] [] h k = refl
prefixes_compare p [] (b ∷ ys) h k = refl
prefixes_compare p (a ∷ xs) [] h k = refl
prefixes_compare [] (a ∷ xs) (b ∷ ys) h k = cc
prefixes_compare (c ∷ p) (a ∷ xs) (b ∷ ys) h k =
    let (h0, h1) = and_eq_true (component_eq c a) _ h in
    let (k0, k1) = and_eq_true (component_eq c b) _ k in
    let e : a ≡ b = sym (component_eq_sound c a h0) ∙ component_eq_sound c b k0 in
    let shorter = prefixes_compare p xs ys h1 k1 in
    subst
      (λ x.
        ((component_eq a x && starts_with xs ys) || (component_eq x a && starts_with ys xs)) ≡ true)
      e (ground (arith, shorter, component_eq_refl a))

append-nil_left : (xs ys : List ConfigError) → xs ++ ys ≡ [] → xs ≡ []
append-nil_left [] ys h = refl
append-nil_left (x ∷ xs) ys h = cc

append-nil_right : (xs ys : List ConfigError) → xs ++ ys ≡ [] → ys ≡ []
append-nil_right [] ys h = h
append-nil_right (x ∷ xs) ys h = cc

errors_of-Mem :
    (entry other : Text × CanonicalMirror) (rest : List (Text × CanonicalMirror))
    → errors_of entry rest ≡ []
    → Memᴰ other rest
    → overlap_error entry other ≡ []
unfolding errors_of
errors_of-Mem entry other [] h m = elim m [ ]
errors_of-Mem entry other (x ∷ rest) h (Memᴰ.head e) =
    subst (λ y. overlap_error entry y ≡ []) (sym e)
      (append-nil_left (overlap_error entry x) (errors_of entry rest) h)
errors_of-Mem entry other (x ∷ rest) h (Memᴰ.tail m) =
    errors_of-Mem entry other rest
      (append-nil_right (overlap_error entry x) (errors_of entry rest) h) m

overlap_error-none :
    (a b : Text × CanonicalMirror) (path : List Component)
    → overlap_error a b ≡ []
    → text_eq a.1.owner_node b.1.owner_node ≡ true
    → starts_with path (components a.1.document.mirror.target) ≡ true
    → starts_with path (components b.1.document.mirror.target) ≡ true
    → ⊥
unfolding overlap_error targets_overlap
overlap_error-none (n, a) (k, b) path h owner s t =
    let overlap =
      prefixes_compare path (components a.document.mirror.target)
        (components b.document.mirror.target) s t in
    ground (arith, h, owner, overlap)

-- Where `target_overlap_errors` finds nothing, a path lies in the target of one mirror of a node
-- at most: two entries of one node whose targets are prefixes of it are the same entry.
pub target_overlap_errors-separate :
    (mirrors : List (Text × CanonicalMirror)) (a b : Text × CanonicalMirror) (path : List Component)
    → target_overlap_errors mirrors ≡ []
    → Memᴰ a mirrors
    → Memᴰ b mirrors
    → a.1.owner_node ≡ b.1.owner_node
    → starts_with path (components a.1.document.mirror.target) ≡ true
    → starts_with path (components b.1.document.mirror.target) ≡ true
    → a ≡ b
unfolding target_overlap_errors
target_overlap_errors-separate [] a b path h m n owner s t = elim m [ ]
target_overlap_errors-separate (x ∷ rest) a b path h (Memᴰ.head e) (Memᴰ.head f) owner s t =
    e ∙ sym f
target_overlap_errors-separate (x ∷ rest) a b path h (Memᴰ.head e) (Memᴰ.tail n) owner s t =
    absurd (
      overlap_error-none a b path
        (subst (λ y. overlap_error y b ≡ []) (sym e)
          (errors_of-Mem x b rest
            (append-nil_left (errors_of x rest) (target_overlap_errors rest) h) n))
        (subst (λ y. text_eq a.1.owner_node y ≡ true) owner (text_eq_refl a.1.owner_node)) s t)
target_overlap_errors-separate (x ∷ rest) a b path h (Memᴰ.tail m) (Memᴰ.head f) owner s t =
    absurd (
      overlap_error-none b a path
        (subst (λ y. overlap_error y a ≡ []) (sym f)
          (errors_of-Mem x a rest
            (append-nil_left (errors_of x rest) (target_overlap_errors rest) h) m))
        (subst (λ y. text_eq y a.1.owner_node ≡ true) owner (text_eq_refl a.1.owner_node)) t s)
target_overlap_errors-separate (x ∷ rest) a b path h (Memᴰ.tail m) (Memᴰ.tail n) owner s t =
    target_overlap_errors-separate rest a b path
      (append-nil_right (errors_of x rest) (target_overlap_errors rest) h) m n owner s t
