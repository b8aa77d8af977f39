-- ===== src/Store/Revisions/Sorting.antt =====
-- The list of changes that `plan_with_connection` (crates/lmt-store/src/lib.rs) sorts, and those that
-- create a mirror.
use lzu_mirror_tools.Prelude.{
  ◌≡◌, ◌⊎◌, refl, sym, ap, ap₂, Bool, true, false, List, [], ◌∷◌, inl, inr, Bool-cases,
  if◌then◌else◌, Memᴰ,
}
use lzu_mirror_tools.Prelude.Text.{Text, text_eq, text_lt}
use lzu_mirror_tools.Prelude.Tables.{exists_where}
use lzu_mirror_tools.Core.Config.{CanonicalMirror}
use lzu_mirror_tools.Store.Rows.{MirrorRow, GenerationRow}
use lzu_mirror_tools.Store.Revisions.{ChangeKind, ConfigChange}
use lzu_mirror_tools.Store.Revisions.Plan.{creation, creations, insert_change, sort_changes}

-- Sorting keeps the changes.
placed-Mem :
    (b : Bool) (c d e : ConfigChange) (es rest : List ConfigChange)
    → (Memᴰ c rest → Memᴰ c (d ∷ es))
    → Memᴰ c (if b then e ∷ rest else d ∷ e ∷ es)
    → Memᴰ c (d ∷ e ∷ es)
placed-Mem true c d e es rest back (Memᴰ.head h) = Memᴰ.tail (Memᴰ.head h)
placed-Mem true c d e es rest back (Memᴰ.tail n) = elim (back n) [
  | Memᴰ.head h ↦ Memᴰ.head h
  | Memᴰ.tail k ↦ Memᴰ.tail (Memᴰ.tail k)
]
placed-Mem false c d e es rest back n = n

Mem-placed :
    (b : Bool) (c d e : ConfigChange) (es rest : List ConfigChange)
    → (Memᴰ c (d ∷ es) → Memᴰ c rest)
    → Memᴰ c (d ∷ e ∷ es)
    → Memᴰ c (if b then e ∷ rest else d ∷ e ∷ es)
Mem-placed true c d e es rest forth (Memᴰ.head h) = Memᴰ.tail (forth (Memᴰ.head h))
Mem-placed true c d e es rest forth (Memᴰ.tail (Memᴰ.head h)) = Memᴰ.head h
Mem-placed true c d e es rest forth (Memᴰ.tail (Memᴰ.tail k)) = Memᴰ.tail (forth (Memᴰ.tail k))
Mem-placed false c d e es rest forth n = n

insert_change-Mem :
    (c d : ConfigChange) (ds : List ConfigChange) → Memᴰ c (insert_change d ds) → Memᴰ c (d ∷ ds)
unfolding insert_change
insert_change-Mem c d [] m = m
insert_change-Mem c d (e ∷ es) m =
    placed-Mem (text_lt e.mirror d.mirror) c d e es (insert_change d es) (insert_change-Mem c d es)
      m

Mem-insert_change :
    (c d : ConfigChange) (ds : List ConfigChange) → Memᴰ c (d ∷ ds) → Memᴰ c (insert_change d ds)
unfolding insert_change
Mem-insert_change c d [] m = m
Mem-insert_change c d (e ∷ es) m =
    Mem-placed (text_lt e.mirror d.mirror) c d e es (insert_change d es) (Mem-insert_change c d es)
      m

pub sort_changes-Mem :
    (c : ConfigChange) (cs : List ConfigChange) → Memᴰ c (sort_changes cs) → Memᴰ c cs
unfolding sort_changes
sort_changes-Mem c [] m = m
sort_changes-Mem c (d ∷ ds) m = elim (insert_change-Mem c d (sort_changes ds) m) [
  | Memᴰ.head h ↦ Memᴰ.head h
  | Memᴰ.tail k ↦ Memᴰ.tail (sort_changes-Mem c ds k)
]

pub Mem-sort_changes :
    (c : ConfigChange) (cs : List ConfigChange) → Memᴰ c cs → Memᴰ c (sort_changes cs)
unfolding sort_changes
Mem-sort_changes c [] m = m
Mem-sort_changes c (d ∷ ds) (Memᴰ.head h) = Mem-insert_change c d (sort_changes ds) (Memᴰ.head h)
Mem-sort_changes c (d ∷ ds) (Memᴰ.tail m) =
    Mem-insert_change c d (sort_changes ds) (Memᴰ.tail (Mem-sort_changes c ds m))

skipped-Mem :
    (b : Bool) (c d : ConfigChange) (rest : List ConfigChange)
    → Memᴰ c (if b then rest else d ∷ rest)
    → (c ≡ d) ⊎ Memᴰ c rest
skipped-Mem true c d rest n = inr n
skipped-Mem false c d rest (Memᴰ.head h) = inl h
skipped-Mem false c d rest (Memᴰ.tail n) = inr n

pub creations-create :
    (current : List (MirrorRow × GenerationRow)) (ms : List (Text × CanonicalMirror))
    (c : ConfigChange)
    → Memᴰ c (creations current ms)
    → c.kind ≡ ChangeKind.create
unfolding creations creation
creations-create current [] c m = elim m [ ]
creations-create current ((name, mirror) ∷ rest) c m =
    elim (skipped-Mem
      (exists_where (λ (p : MirrorRow × GenerationRow). text_eq p.0.name name) current) c
      (creation name mirror) (creations current rest) m) [
        | inl e ↦ ap (λ (d : ConfigChange). d.kind) e
        | inr n ↦ creations-create current rest c n
      ]

pub Mem-creations :
    (current : List (MirrorRow × GenerationRow)) (ms : List (Text × CanonicalMirror)) (name : Text)
    (mirror : CanonicalMirror)
    → Memᴰ (name, mirror) ms
    → exists_where (λ (p : MirrorRow × GenerationRow). text_eq p.0.name name) current ≡ false
    → Memᴰ (creation name mirror) (creations current ms)
unfolding creations
Mem-creations current [] name mirror m f = elim m [ ]
Mem-creations current ((n, x) ∷ rest) name mirror (Memᴰ.head h) f =
    let same : n ≡ name = sym (ap (λ (p : Text × CanonicalMirror). p.0) h) in
    rw (same, f) (Memᴰ.head (ap₂ creation refl (ap (λ (p : Text × CanonicalMirror). p.1) h)))
Mem-creations current ((n, x) ∷ rest) name mirror (Memᴰ.tail m) f =
    elim (Bool-cases
      (exists_where (λ (p : MirrorRow × GenerationRow). text_eq p.0.name n) current)) [
        | inl t ↦ rw t (Mem-creations current rest name mirror m f)
        | inr g ↦ rw g (Memᴰ.tail (Mem-creations current rest name mirror m f))
      ]
