-- ===== src/Command/Stack/Refine.antt =====
-- The position of a session as what it stands for: a root frame, and the frames above it.
use routercli.Base.{
  ℕ, suc, ◌-◌, Bool, true, false, Option, none, some, List, [], ◌∷◌, ◌++◌, ◌≡◌, refl, ap, arith,
  leb, length, length-append, take, get_elem?, Text,
}
use routercli.Command.Tree.{Tree}
use routercli.Command.Context.{CommandLevelFrame, CommandLevelStack}
use routercli.Command.Stack.{
  new_command_level_stack, push, pop, pop_to_root, current, at_root, depth, set_root_tree,
}

-- The root, and the frames above it, the current one first.
pub record Position : Type 0 where
  pub root : CommandLevelFrame
  pub above : List CommandLevelFrame

pub data Op : Type 0 where
  pushed : CommandLevelFrame → Op
  popped : Op
  ended : Op
  switched : Text → Text → Tree → Op

abbrev rename_root : CommandLevelFrame → Text → Text → Tree → CommandLevelFrame
rename_root root name prompt_suffix tree = record root {
  name = name;
  prompt_suffix = prompt_suffix;
  tree = tree;
}

abbrev pub drop_top : List CommandLevelFrame → List CommandLevelFrame
drop_top [] = []
drop_top (f ∷ above) = above

abbrev pub top : Position → CommandLevelFrame
top p = elim (p.above) [ [] ↦ p.root | f ∷ above ↦ f ]

-- What an operation promises.
abbrev pub promised : Position → Op → Position
promised p (pushed frame) = record p { above = frame ∷ p.above }
promised p popped = record p { above = drop_top p.above }
promised p ended = record p { above = [] }
promised p (switched name prompt_suffix tree) = record p {
  root = rename_root p.root name prompt_suffix tree;
}

abbrev pub promised_run : Position → List Op → Position
promised_run p [] = p
promised_run p (op ∷ ops) = promised_run (promised p op) ops

-- What it does; `none` is a panic.
abbrev pub perform : CommandLevelStack → Op → Option CommandLevelStack
perform m (pushed frame) = some (push m frame)
perform m popped = some (pop m).1
perform m ended = pop_to_root m
perform m (switched name prompt_suffix tree) = set_root_tree m name prompt_suffix tree

abbrev pub perform_run : CommandLevelStack → List Op → Option CommandLevelStack
perform_run m [] = some m
perform_run m (op ∷ ops) = elim (perform m op) [ none ↦ none | some m' ↦ perform_run m' ops ]

abbrev bottom_up : List CommandLevelFrame → List CommandLevelFrame
bottom_up [] = []
bottom_up (f ∷ above) = bottom_up above ++ f ∷ []

-- The stack that a position stands for.
abbrev pub stack : Position → CommandLevelStack
stack p = record { frames = p.root ∷ bottom_up p.above }

length-bottom_up : (l : List CommandLevelFrame) → length (bottom_up l) ≡ length l
length-bottom_up [] = refl
length-bottom_up (f ∷ l) = omega (arith, length-append (bottom_up l) (f ∷ []), length-bottom_up l)

take-snoc : (l : List CommandLevelFrame) (f : CommandLevelFrame) → take (length l) (l ++ f ∷ []) ≡ l
take-snoc [] f = refl
take-snoc (g ∷ l) f = ap (◌∷◌ g) (take-snoc l f)

get_elem?-snoc :
    (l : List CommandLevelFrame) (f : CommandLevelFrame)
    → get_elem? (l ++ f ∷ []) (length l) ≡ some f
get_elem?-snoc [] f = refl
get_elem?-snoc (g ∷ l) f = get_elem?-snoc l f

length-snoc :
    (l : List CommandLevelFrame) (f : CommandLevelFrame) → length (l ++ f ∷ []) ≡ suc (length l)
length-snoc l f = omega (arith, length-append l (f ∷ []))

two_frames : (n : ℕ) → (leb (suc (suc n)) 1 ≡ false) × (suc (suc n) - 1 ≡ suc n)
two_frames n = ground arith

pop-stack :
    (root : CommandLevelFrame) (above : List CommandLevelFrame)
    → (pop (stack (record { root = root; above = above }))).1
      ≡ stack (record { root = root; above = drop_top above })
unfolding pop
pop-stack root [] = refl
pop-stack root (f ∷ above) =
    rw (length-snoc (bottom_up above) f, (two_frames (length (bottom_up above))).0)
      (rw (two_frames (length (bottom_up above))).1
        (ap (λ l. record { frames = root ∷ l }) (take-snoc (bottom_up above) f)))

perform-promised : (p : Position) (op : Op) → perform (stack p) op ≡ some (stack (promised p op))
unfolding push pop_to_root set_root_tree
perform-promised p (pushed frame) = refl
perform-promised p popped = ap some (pop-stack p.root p.above)
perform-promised p ended = refl
perform-promised p (switched name prompt_suffix tree) = refl

perform_run-promised :
    (p : Position) (ops : List Op) → perform_run (stack p) ops ≡ some (stack (promised_run p ops))
perform_run-promised p [] = refl
perform_run-promised p (op ∷ ops) =
    rw (perform-promised p op, perform_run) (perform_run-promised (promised p op) ops)

current-list :
    (root : CommandLevelFrame) (above : List CommandLevelFrame)
    → current (stack (record { root = root; above = above }))
      ≡ some (top (record { root = root; above = above }))
unfolding current
current-list root [] = refl
current-list root (f ∷ above) =
    rw (length-snoc (bottom_up above) f, (two_frames (length (bottom_up above))).1)
      (get_elem?-snoc (bottom_up above) f)

abbrev pub is_nil : List CommandLevelFrame → Bool
is_nil [] = true
is_nil (f ∷ l) = false

at_root-list :
    (root : CommandLevelFrame) (above : List CommandLevelFrame)
    → at_root (stack (record { root = root; above = above })) ≡ is_nil above
unfolding at_root
at_root-list root [] = refl
at_root-list root (f ∷ above) =
    rw (length-snoc (bottom_up above) f) (two_frames (length (bottom_up above))).0

abbrev pub at_start : Text → Text → Tree → Position
at_start name prompt_suffix tree = record {
  root = record { name = name; prompt_suffix = prompt_suffix; tree = tree; context = [] };
  above = [];
}

-- No run of `Push`, `Pop`, `PopToRoot` and `SetRootTree` on a new stack panics: the stack always
-- has its root, which `Pop` leaves in place and only `SetRootTree` changes. `Current` is the frame
-- pushed last and not yet popped, or else the root, `Depth` counts these frames and the root, and
-- `AtRoot` says that there is none above the root.
pub perform_run-new :
    (name prompt_suffix : Text) (tree : Tree) (ops : List Op)
    → let p = promised_run (at_start name prompt_suffix tree) ops in
      (perform_run (new_command_level_stack name prompt_suffix tree) ops ≡ some (stack p))
      × (current (stack p) ≡ some (top p))
      × (depth (stack p) ≡ suc (length p.above))
      × (at_root (stack p) ≡ is_nil p.above)
unfolding depth
perform_run-new name prompt_suffix tree ops =
    let p = promised_run (at_start name prompt_suffix tree) ops in
    (
      perform_run-promised (at_start name prompt_suffix tree) ops,
      current-list p.root p.above,
      ap suc (length-bottom_up p.above),
      at_root-list p.root p.above,
    )
