-- ===== src/Scst/Sound/Edits.antt =====
-- What a change of the first matching item does to the groups of a target and to their LUNs.
use text.Mathlib.TextEquality.{eq_iff}
use esos_webui.Common.{
  Bool, Bool-cases, List, String, [], all, any, ap, arith, false, find, if◌then◌else◌, inl, inr,
  refl, some, str_eq, true, ℕ, ◌∷◌, ◌≡◌,
}
use esos_webui.Scst.Types.{Lun, Group}
use esos_webui.Scst.Luns.{group_luns, named, has_id, id_in_groups}
use esos_webui.Scst.Mutators.{edit_first}
use esos_webui.Scst.Distinct.{Sub, done, Sub-refl, Sub-append, any-append, distinct}
use esos_webui.Scst.Sound.{same_name, same_id, same_device}

pub same_id_comm : (l k : Lun) → same_id l k ≡ same_id k l
same_id_comm l k = ground arith

pub same_device_comm : (l k : Lun) → same_device l k ≡ same_device k l
same_device_comm l k = ground (arith, eq_iff k.device l.device, eq_iff l.device k.device)

pub same_name_comm : (g h : Group) → same_name g h ≡ same_name h g
same_name_comm g h = ground (arith, eq_iff h.name g.name, eq_iff g.name h.name)

module _ {ℓ} {A : Type ℓ} (p q : A → Bool) (f : A → A) where
  -- A change of the found item keeps what holds of all items, if it keeps it for that item.
  pub all-edit_found :
      (xs : List A) (a : A)
      → find p xs ≡ some a
      → q (f a) ≡ true
      → all q xs ≡ true
      → all q (edit_first p f xs) ≡ true
  unfolding all find edit_first
  all-edit_found [] a h k s = s
  all-edit_found (x ∷ xs) a h k s = elim (Bool-cases (p x)) [
    | inl e ↦
        let same : x ≡ a = ground arith in let kept : q (f x) ≡ true = rw (same) k in ground arith
    | inr e ↦ ground (arith, all-edit_found xs a)
  ]

  pub all-edit_first :
      (xs : List A)
      → ((a : A) → q a ≡ true → q (f a) ≡ true)
      → all q xs ≡ true
      → all q (edit_first p f xs) ≡ true
  unfolding all edit_first
  all-edit_first [] k s = s
  all-edit_first (x ∷ xs) k s = ground (arith, all-edit_first xs k, k x)

-- The groups of a list that have a name, by two ways to write it.
same_name-eq :
    (g : Group) (n : String) (gs : List Group)
    → g.name ≡ n
    → any (same_name g) gs ≡ any (named n) gs
same_name-eq g n gs h = ap (λ s. any (λ k. str_eq k.name s) gs) h

module _ (f : Group → Group) (gn : String) where
  -- A change of a group that keeps its name keeps the names apart.
  any-edit_name :
      (h : Group) (gs : List Group)
      → ((g : Group) → (f g).name ≡ g.name)
      → any (same_name h) (edit_first (named gn) f gs) ≡ any (same_name h) gs
  unfolding any edit_first
  any-edit_name h [] k = refl
  any-edit_name h (g ∷ gs) k = ground (arith, any-edit_name h gs k, k g)

  pub distinct-edit_name :
      (gs : List Group)
      → ((g : Group) → (f g).name ≡ g.name)
      → distinct same_name gs ≡ true
      → distinct same_name (edit_first (named gn) f gs) ≡ true
  unfolding distinct edit_first any
  distinct-edit_name [] k h = h
  distinct-edit_name (g ∷ gs) k h = ground (
    arith,
    distinct-edit_name gs k,
    same_name-eq (f g) g.name gs (k g),
    same_name-eq g g.name gs refl,
    any-edit_name g gs k,
  )

  pub Sub-edit_luns :
      (gs : List Group)
      → ((g : Group) → Sub (f g).luns g.luns)
      → Sub (group_luns (edit_first (named gn) f gs)) (group_luns gs)
  unfolding edit_first
  Sub-edit_luns [] k = done
  Sub-edit_luns (g ∷ gs) k =
      elim (named gn g)
        as (λ b.
          Sub (group_luns (if b then f g ∷ gs else g ∷ edit_first (named gn) f gs))
            (group_luns (g ∷ gs))) [
              | true ↦ Sub-append (k g) (Sub-refl (group_luns gs))
              | false ↦ Sub-append (Sub-refl g.luns) (Sub-edit_luns gs k)
            ]

-- A number that the checks of `validateMapLun` accept is on no group of the target.
id_in_groups-others :
    (gs : List Group) (n : ℕ) (gn : String)
    → any (named gn) gs ≡ false
    → id_in_groups gs n gn ≡ false
    → any (has_id n) (group_luns gs) ≡ false
unfolding any id_in_groups
id_in_groups-others [] n gn h k = refl
id_in_groups-others (g ∷ gs) n gn h k =
    ground (arith, id_in_groups-others gs n gn, any-append (has_id n) g.luns (group_luns gs))

pub id_in_groups-free :
    (gs : List Group) (n : ℕ) (gn : String) (g : Group)
    → distinct same_name gs ≡ true
    → find (named gn) gs ≡ some g
    → any (has_id n) g.luns ≡ false
    → id_in_groups gs n gn ≡ false
    → any (has_id n) (group_luns gs) ≡ false
unfolding any id_in_groups find distinct
id_in_groups-free [] n gn g d h own k = refl
id_in_groups-free (x ∷ gs) n gn g d h own k = elim (Bool-cases (named gn x)) [
  | inl e ↦
      let same : x ≡ g = ground arith in
      let luns : any (has_id n) x.luns ≡ false = rw (same) own in
      let others : any (named gn) gs ≡ false =
        ground (arith, same_name-eq x gn gs, eq_iff x.name gn) in
      ground
        (arith, id_in_groups-others gs n gn others, any-append (has_id n) x.luns (group_luns gs))
  | inr e ↦
      ground (arith, id_in_groups-free gs n gn g, any-append (has_id n) x.luns (group_luns gs))
]
