-- ===== src/Access/Control.antt =====
-- access.rs: the type AccessControl with its derived order, and can_access.
use haunted_house.Common.{ℕ, ◌≡◌, refl, ap, ap₂, List, [], ◌∷◌, Bool, true, false, ◌&&◌, ◌||◌}
use haunted_house.Common.Sort.{
  Ord, nat_ord, list_cmp, list_cmp_eq, list_cmp_refl, then_cmp, then_cmp_eq, contains, list_ord,
}
use Prim.Native.Nat.{compare, Ordering}

-- A token is the list of the bytes of its UTF-8 string.
mutual
  pub data AccessControl : Type 0 where
    or : Controls → AccessControl
    and : Controls → AccessControl
    token : List ℕ → AccessControl
    always : AccessControl

  pub data Controls : Type 0 where
    nil : Controls
    cons : AccessControl → Controls → Controls

abbrev pub to_list : Controls → List AccessControl
to_list nil = []
to_list (cons c cs) = c ∷ to_list cs

abbrev pub of_list : List AccessControl → Controls
of_list [] = nil
of_list (c ∷ cs) = cons c (of_list cs)

pub to_list-of_list : (cs : List AccessControl) → to_list (of_list cs) ≡ cs
to_list-of_list [] = refl
to_list-of_list (c ∷ cs) = ap (◌∷◌ c) (to_list-of_list cs)

-- The position of the variant in the declaration.
abbrev variant : AccessControl → ℕ
variant (or cs) = 0
variant (and cs) = 1
variant (token t) = 2
variant always = 3

unfoldable mutual
  pub control_cmp : AccessControl → AccessControl → Ordering
  control_cmp (or cs) (or ds) = controls_cmp cs ds
  control_cmp (and cs) (and ds) = controls_cmp cs ds
  control_cmp (token t) (token u) = list_cmp t u
  control_cmp c d = compare (variant c) (variant d)

  pub controls_cmp : Controls → Controls → Ordering
  controls_cmp nil nil = Ordering.eq
  controls_cmp nil (cons d ds) = Ordering.lt
  controls_cmp (cons c cs) nil = Ordering.gt
  controls_cmp (cons c cs) (cons d ds) = then_cmp (control_cmp c d) (controls_cmp cs ds)

mutual
  unfolding control_cmp

  pub control_cmp_eq : (c d : AccessControl) → control_cmp c d ≡ Ordering.eq → c ≡ d
  control_cmp_eq (or cs) (or ds) h = ap or (controls_cmp_eq cs ds h)
  control_cmp_eq (and cs) (and ds) h = ap and (controls_cmp_eq cs ds h)
  control_cmp_eq (token t) (token u) h = ap token (list_cmp_eq t u h)
  control_cmp_eq always always h = refl
  control_cmp_eq c d h = cc

  pub controls_cmp_eq : (cs ds : Controls) → controls_cmp cs ds ≡ Ordering.eq → cs ≡ ds
  controls_cmp_eq nil nil h = refl
  controls_cmp_eq nil (cons d ds) h = cc
  controls_cmp_eq (cons c cs) nil h = cc
  controls_cmp_eq (cons c cs) (cons d ds) h =
      let (hc, hs) = then_cmp_eq (control_cmp c d) (controls_cmp cs ds) h in
      ap₂ cons (control_cmp_eq c d hc) (controls_cmp_eq cs ds hs)

mutual
  unfolding control_cmp

  pub control_cmp_refl : (c : AccessControl) → control_cmp c c ≡ Ordering.eq
  control_cmp_refl (or cs) = controls_cmp_refl cs
  control_cmp_refl (and cs) = controls_cmp_refl cs
  control_cmp_refl (token t) = list_cmp_refl t
  control_cmp_refl always = refl

  pub controls_cmp_refl : (cs : Controls) → controls_cmp cs cs ≡ Ordering.eq
  controls_cmp_refl nil = refl
  controls_cmp_refl (cons c cs) = rw (control_cmp_refl c) (controls_cmp_refl cs)

instance abbrev pub control_ord : Ord AccessControl
control_ord = record { cmp = control_cmp; cmp_eq = control_cmp_eq; cmp_refl = control_cmp_refl }

-- The tokens of a viewer; a HashSet, which is only asked whether it contains a token.
abbrev pub ViewControl : Type 0
ViewControl = List (List ℕ)

unfoldable mutual
  pub can_access : ViewControl → AccessControl → Bool
  can_access fields (or sub) = can_access_any fields sub
  can_access fields (and sub) = can_access_all fields sub
  can_access fields (token t) = contains fields t
  can_access fields always = true

  pub can_access_any : ViewControl → Controls → Bool
  can_access_any fields nil = false
  can_access_any fields (cons ac sub) = can_access fields ac || can_access_any fields sub

  pub can_access_all : ViewControl → Controls → Bool
  can_access_all fields nil = true
  can_access_all fields (cons ac sub) = can_access fields ac && can_access_all fields sub
