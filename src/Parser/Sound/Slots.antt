-- ===== src/Parser/Sound/Slots.antt =====
-- src/config.c, parse_descriptor: the arguments of a descriptor, as they are stored.
use keyd_fork.Common.{ℕ, suc, ◌+◌, ◌≤◌, ◌<◌, ◌≡◌, sym, subst, List, [], ◌∷◌, arith, length}
use keyd_fork.Config.{Descriptor}
use keyd_fork.Parser.Actions.{ArgType}
use keyd_fork.Parser.Descriptor.{set_arg}
use keyd_fork.Parser.Sound.Table.{slot, ArgsBelow}

set_arg-slot : (j k v : ℕ) (d : Descriptor) → j < k → k < 3 → slot k (set_arg j v d) ≡ slot k d
set_arg-slot j k v d h l = ground arith

set_arg-own : (j v : ℕ) (d : Descriptor) → slot j (set_arg j v d) ≡ v
set_arg-own j v d = ground arith

pub set_arg-op : (j v : ℕ) (d : Descriptor) → (set_arg j v d).op ≡ d.op
set_arg-op j v d = ground arith

pub ArgsBelow-le :
    (m n j : ℕ) (ts : List ArgType) (d : Descriptor)
    → m ≤ n
    → ArgsBelow m j ts d
    → ArgsBelow n j ts d
ArgsBelow-le m n j [] d h b = tt
ArgsBelow-le m n j (ArgType.descriptor ∷ ts) d h b =
    (omega (arith, h, b.0), ArgsBelow-le m n (suc j) ts d h b.1)
ArgsBelow-le m n j (ArgType.macro ∷ ts) d h b = ArgsBelow-le m n (suc j) ts d h b
ArgsBelow-le m n j (ArgType.layer ∷ ts) d h b = ArgsBelow-le m n (suc j) ts d h b
ArgsBelow-le m n j (ArgType.layout ∷ ts) d h b = ArgsBelow-le m n (suc j) ts d h b
ArgsBelow-le m n j (ArgType.timeout ∷ ts) d h b = ArgsBelow-le m n (suc j) ts d h b
ArgsBelow-le m n j (ArgType.sensitivity ∷ ts) d h b = ArgsBelow-le m n (suc j) ts d h b

ArgsBelow-set :
    (n j k v : ℕ) (ts : List ArgType) (d : Descriptor)
    → j < k
    → k + length ts ≤ 3
    → ArgsBelow n k ts d
    → ArgsBelow n k ts (set_arg j v d)
ArgsBelow-set n j k v [] d h l b = tt
ArgsBelow-set n j k v (ArgType.descriptor ∷ ts) d h l b = (
  subst (λ x. x < n) (sym (set_arg-slot j k v d h (omega arith))) b.0,
  ArgsBelow-set n j (suc k) v ts d (omega arith) (omega arith) b.1,
)
ArgsBelow-set n j k v (ArgType.macro ∷ ts) d h l b =
    ArgsBelow-set n j (suc k) v ts d (omega arith) (omega arith) b
ArgsBelow-set n j k v (ArgType.layer ∷ ts) d h l b =
    ArgsBelow-set n j (suc k) v ts d (omega arith) (omega arith) b
ArgsBelow-set n j k v (ArgType.layout ∷ ts) d h l b =
    ArgsBelow-set n j (suc k) v ts d (omega arith) (omega arith) b
ArgsBelow-set n j k v (ArgType.timeout ∷ ts) d h l b =
    ArgsBelow-set n j (suc k) v ts d (omega arith) (omega arith) b
ArgsBelow-set n j k v (ArgType.sensitivity ∷ ts) d h l b =
    ArgsBelow-set n j (suc k) v ts d (omega arith) (omega arith) b

-- What is stored in the argument of a type.
abbrev pub ValBelow : ArgType → ℕ → ℕ → Type 0
ValBelow ArgType.descriptor n v = v < n
ValBelow _ n v = Unit {0}

pub ArgsBelow-cons :
    (n j v : ℕ) (t : ArgType) (ts : List ArgType) (d : Descriptor)
    → suc j + length ts ≤ 3
    → ValBelow t n v
    → ArgsBelow n (suc j) ts d
    → ArgsBelow n j (t ∷ ts) (set_arg j v d)
ArgsBelow-cons n j v ArgType.descriptor ts d l x b = (
  subst (λ y. y < n) (sym (set_arg-own j v d)) x,
  ArgsBelow-set n j (suc j) v ts d (omega arith) l b,
)
ArgsBelow-cons n j v ArgType.macro ts d l x b = ArgsBelow-set n j (suc j) v ts d (omega arith) l b
ArgsBelow-cons n j v ArgType.layer ts d l x b = ArgsBelow-set n j (suc j) v ts d (omega arith) l b
ArgsBelow-cons n j v ArgType.layout ts d l x b = ArgsBelow-set n j (suc j) v ts d (omega arith) l b
ArgsBelow-cons n j v ArgType.timeout ts d l x b = ArgsBelow-set n j (suc j) v ts d (omega arith) l b
ArgsBelow-cons n j v ArgType.sensitivity ts d l x b =
    ArgsBelow-set n j (suc j) v ts d (omega arith) l b
