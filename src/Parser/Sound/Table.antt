-- ===== src/Parser/Sound/Table.antt =====
-- src/config.c: the actions' arguments hold the references of their descriptors.
use keyd_fork.Common.{
  ℕ, suc, ◌≤◌, ◌<◌, ◌≡◌, refl, subst, ◌∙◌, ◌⊎◌, inl, inr, Bool, true, false, ◌&&◌, some, List, [],
  ◌∷◌, arith, leb, ◌==◌, if◌then◌else◌, length, elem,
}
use keyd_fork.Keyboard.Fuel.Descriptors.{references}
use keyd_fork.Parser.Sound.{Below}
use keyd_fork.Config.{Op, Descriptor}
use keyd_fork.Parser.Actions.{Action, ArgType, actions, find_action}

abbrev pub slot : ℕ → Descriptor → ℕ
slot j d = if j == 0 then d.arg0 else if j == 1 then d.arg1 else d.arg2

-- The arguments that are descriptors, from the `j`th on, are below `n`.
abbrev pub ArgsBelow : ℕ → ℕ → List ArgType → Descriptor → Type 0
ArgsBelow n j [] d = Unit {0}
ArgsBelow n j (ArgType.descriptor ∷ ts) d = (slot j d < n) × ArgsBelow n (suc j) ts d
ArgsBelow n j (_ ∷ ts) d = ArgsBelow n (suc j) ts d

abbrev covers : Op → List ArgType → Bool
covers Op.overload (_ ∷ ArgType.descriptor ∷ _) = true
covers Op.overload _ = false
covers Op.overload_idle_timeout (ArgType.descriptor ∷ ArgType.descriptor ∷ _) = true
covers Op.overload_idle_timeout _ = false
covers _ _ = true

abbrev is_covered : Action → Bool
is_covered a = covers a.op a.args && leb (length a.args) 3

abbrev all_covered : List Action → Bool
all_covered [] = true
all_covered (a ∷ more) = is_covered a && all_covered more

table_covered : all_covered actions ≡ true
unfolding actions
table_covered = refl

find_covered :
    (fn : List ℕ) (table : List Action) (a : Action)
    → all_covered table ≡ true
    → find_action fn table ≡ some a
    → is_covered a ≡ true
unfolding find_action
find_covered fn [] a h e = cc
find_covered fn (x ∷ table) a h e = ground (arith, find_covered fn table a)

-- What is known of the arguments behind the first.
pub ArgsBelow-tail :
    (n j : ℕ) (t : ArgType) (ts : List ArgType) (d : Descriptor)
    → ArgsBelow n j (t ∷ ts) d
    → ArgsBelow n (suc j) ts d
ArgsBelow-tail n j ArgType.descriptor ts d h = h.1
ArgsBelow-tail n j ArgType.macro ts d h = h
ArgsBelow-tail n j ArgType.layer ts d h = h
ArgsBelow-tail n j ArgType.layout ts d h = h
ArgsBelow-tail n j ArgType.timeout ts d h = h
ArgsBelow-tail n j ArgType.sensitivity ts d h = h

second_Below :
    (n : ℕ) (ts : List ArgType) (d : Descriptor)
    → covers Op.overload ts ≡ true
    → ArgsBelow n 0 ts d
    → d.arg1 < n
second_Below n [] d h b = cc
second_Below n (t ∷ []) d h b = cc
second_Below n (t ∷ ArgType.macro ∷ ts) d h b = cc
second_Below n (t ∷ ArgType.layer ∷ ts) d h b = cc
second_Below n (t ∷ ArgType.layout ∷ ts) d h b = cc
second_Below n (t ∷ ArgType.timeout ∷ ts) d h b = cc
second_Below n (t ∷ ArgType.sensitivity ∷ ts) d h b = cc
second_Below n (t ∷ ArgType.descriptor ∷ ts) d h b =
    (ArgsBelow-tail n 0 t (ArgType.descriptor ∷ ts) d b).0

both_Below :
    (n : ℕ) (ts : List ArgType) (d : Descriptor)
    → covers Op.overload_idle_timeout ts ≡ true
    → ArgsBelow n 0 ts d
    → (d.arg0 < n) × (d.arg1 < n)
both_Below n [] d h b = cc
both_Below n (ArgType.macro ∷ ts) d h b = cc
both_Below n (ArgType.layer ∷ ts) d h b = cc
both_Below n (ArgType.layout ∷ ts) d h b = cc
both_Below n (ArgType.timeout ∷ ts) d h b = cc
both_Below n (ArgType.sensitivity ∷ ts) d h b = cc
both_Below n (ArgType.descriptor ∷ []) d h b = cc
both_Below n (ArgType.descriptor ∷ ArgType.macro ∷ ts) d h b = cc
both_Below n (ArgType.descriptor ∷ ArgType.layer ∷ ts) d h b = cc
both_Below n (ArgType.descriptor ∷ ArgType.layout ∷ ts) d h b = cc
both_Below n (ArgType.descriptor ∷ ArgType.timeout ∷ ts) d h b = cc
both_Below n (ArgType.descriptor ∷ ArgType.sensitivity ∷ ts) d h b = cc
both_Below n (ArgType.descriptor ∷ ArgType.descriptor ∷ ts) d h b = (b.0, b.1.0)

pub quiet_Below : (n : ℕ) (d : Descriptor) → references d ≡ [] → Below n d
quiet_Below n d q i e = elim (no_member (subst (λ r. elem i r ≡ true) q e)) [ ]
  where
    no_member : false ≡ true → ⊥
    no_member h = cc

op_cases :
    (op : Op)
    → (op ≡ Op.overload)
      ⊎ (op ≡ Op.overload_idle_timeout)
      ⊎ ((d : Descriptor) → d.op ≡ op → references d ≡ [])
op_cases Op.unset = inr (inr (λ d o. rw o refl))
op_cases Op.keysequence = inr (inr (λ d o. rw o refl))
op_cases Op.oneshot = inr (inr (λ d o. rw o refl))
op_cases Op.oneshotm = inr (inr (λ d o. rw o refl))
op_cases Op.layerm = inr (inr (λ d o. rw o refl))
op_cases Op.swap = inr (inr (λ d o. rw o refl))
op_cases Op.swapm = inr (inr (λ d o. rw o refl))
op_cases Op.layer = inr (inr (λ d o. rw o refl))
op_cases Op.layout = inr (inr (λ d o. rw o refl))
op_cases Op.clear = inr (inr (λ d o. rw o refl))
op_cases Op.clearm = inr (inr (λ d o. rw o refl))
op_cases Op.overload = inl refl
op_cases Op.overload_timeout = inr (inr (λ d o. rw o refl))
op_cases Op.overload_timeout_tap = inr (inr (λ d o. rw o refl))
op_cases Op.overload_idle_timeout = inr (inl refl)
op_cases Op.toggle = inr (inr (λ d o. rw o refl))
op_cases Op.togglem = inr (inr (λ d o. rw o refl))
op_cases Op.macro = inr (inr (λ d o. rw o refl))
op_cases Op.macro2 = inr (inr (λ d o. rw o refl))
op_cases Op.command = inr (inr (λ d o. rw o refl))
op_cases Op.timeout = inr (inr (λ d o. rw o refl))
op_cases Op.scroll_toggle = inr (inr (λ d o. rw o refl))
op_cases Op.scroll = inr (inr (λ d o. rw o refl))

elem_one : (i x n : ℕ) → elem i (x ∷ []) ≡ true → x < n → i < n
elem_one i x n h k = ground arith

elem_two : (i x y n : ℕ) → elem i (x ∷ y ∷ []) ≡ true → x < n → y < n → i < n
elem_two i x y n h k k' = ground arith

overload_Below : (n : ℕ) (d : Descriptor) → d.op ≡ Op.overload → d.arg1 < n → Below n d
overload_Below n d o h i e =
    elem_one i d.arg1 n (subst (λ r. elem i r ≡ true) (references-op o) e) h
  where
    references-op : d.op ≡ Op.overload → references d ≡ d.arg1 ∷ []
    references-op o = rw o refl

idle_Below :
    (n : ℕ) (d : Descriptor)
    → d.op ≡ Op.overload_idle_timeout
    → (d.arg0 < n) × (d.arg1 < n)
    → Below n d
idle_Below n d o h i e =
    elem_two i d.arg0 d.arg1 n (subst (λ r. elem i r ≡ true) (references-op o) e) h.0 h.1
  where
    references-op : d.op ≡ Op.overload_idle_timeout → references d ≡ d.arg0 ∷ d.arg1 ∷ []
    references-op o = rw o refl

-- The covered arguments of an operation hold all its references.
pub covers-Below :
    (n : ℕ) (op : Op) (ts : List ArgType) (d : Descriptor)
    → covers op ts ≡ true
    → ArgsBelow n 0 ts d
    → d.op ≡ op
    → Below n d
covers-Below n op ts d h b o = elim (op_cases op) [
  | inl e ↦ overload_Below n d (o ∙ e) (second_Below n ts d (subst (λ q. covers q ts ≡ true) e h) b)
  | inr (inl e) ↦ idle_Below n d (o ∙ e) (both_Below n ts d (subst (λ q. covers q ts ≡ true) e h) b)
  | inr (inr e) ↦ quiet_Below n d (e d o)
]

split_covered :
    (a : Action) → is_covered a ≡ true → (covers a.op a.args ≡ true) × (length a.args ≤ 3)
split_covered a h = (ground arith, ground arith)

-- A call of the table's action.
pub action-Below :
    (fn : List ℕ) (a : Action)
    → find_action fn actions ≡ some a
    → (length a.args ≤ 3)
      × ((n : ℕ) (d : Descriptor) → ArgsBelow n 0 a.args d → d.op ≡ a.op → Below n d)
action-Below fn a e =
    let (c, l) = split_covered a (find_covered fn actions a table_covered e) in
    (l, λ n d b o. covers-Below n a.op a.args d c b o)
