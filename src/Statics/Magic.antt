-- ===== src/Statics/Magic.antt =====
-- cpp/magic_static.cpp: a static variable in a function, and one in a class.
use cs_learning_notes.Base.{
  ℕ, suc, ◌≤◌, ◌≡◌, refl, ◌∙◌, ap, Bool, true, false, Option, none, some, List, [], ◌∷◌, arith,
  if◌then◌else◌,
}

-- What `main` prints.
pub data Line : Type 0 where
  init_function_static : Line
  init_class_static : Line
  start_main : Line
  number : ℕ → Line

-- The two variables, and the output, the newest line first
pub record Memory : Type 0 where
  pub bar_i : Option ℕ
  pub class_i : Option ℕ
  pub cout : List Line

abbrev pub print : Line → Memory → Memory
print l m = record m { cout = l ∷ m.cout }

unfoldable pub bar2 : Memory → ℕ × Memory
bar2 m = (3, print init_function_static m)

-- The static variable of `bar` is initialised by the first call.
unfoldable pub bar : Memory → ℕ × Memory
unfolding bar2
bar m = elim m.bar_i [
  | none ↦ let (i, m') = bar2 m in (3, record m' { bar_i = some i })
  | some i ↦ (3, m)
]

unfoldable pub foo : Memory → ℕ × Memory
foo m = (100, print init_class_static m)

-- `S::i` is initialised before `main`, or later, but before it is read.
unfoldable pub init_class : Memory → Memory
unfolding foo
init_class m = elim m.class_i [
  | none ↦ let (i, m') = foo m in record m' { class_i = some i }
  | some i ↦ m
]

unfoldable pub read_class : Memory → ℕ × Memory
unfolding init_class
read_class m = let m' = init_class m in (elim m'.class_i [ none ↦ 0 | some i ↦ i ], m')

abbrev pub print_number : ℕ × Memory → Memory
print_number (n, m) = print (number n) m

-- The statements of `main`, of which a program may have more.
pub data Statement : Type 0 where
  print_class : Statement
  print_bar : Statement

abbrev pub execute : Statement → Memory → Memory
execute print_class m = print_number (read_class m)
execute print_bar m = print_number (bar m)

unfoldable pub executes : List Statement → Memory → Memory
executes [] m = m
executes (s ∷ ss) m = executes ss (execute s m)

abbrev pub nothing_yet : Memory
nothing_yet = record { bar_i = none; class_i = none; cout = [] }

-- `main` with these statements, where `S::i` is initialised before it, or not.
unfoldable pub main : (deferred : Bool) → List Statement → List Line
main deferred ss =
    let m = if deferred then nothing_yet else init_class nothing_yet in
    (executes ss (print start_main m)).cout

-- How often the two messages stand in the output, and the numbers there, the newest first
abbrev pub function_messages : List Line → ℕ
function_messages [] = 0
function_messages (init_function_static ∷ ls) = suc (function_messages ls)
function_messages (_ ∷ ls) = function_messages ls

abbrev pub class_messages : List Line → ℕ
class_messages [] = 0
class_messages (init_class_static ∷ ls) = suc (class_messages ls)
class_messages (_ ∷ ls) = class_messages ls

abbrev pub numbers : List Line → List ℕ
numbers [] = []
numbers (number n ∷ ls) = n ∷ numbers ls
numbers (_ ∷ ls) = numbers ls

abbrev pub value : Statement → ℕ
value print_class = 100
value print_bar = 3

abbrev pub values_after : List Statement → List ℕ → List ℕ
values_after [] ns = ns
values_after (s ∷ ss) ns = values_after ss (value s ∷ ns)

-- A message was printed as often as its variable is initialised.
record Printed (m : Memory) : Type 0 where
  pub function : function_messages m.cout ≡ (elim m.bar_i [ none ↦ 0 | some i ↦ 1 ])
  pub class : class_messages m.cout ≡ (elim m.class_i [ none ↦ 0 | some i ↦ 1 ])
  pub hundred : (i : ℕ) → m.class_i ≡ some i → i ≡ 100

-- What a statement does to both.
execute-Printed :
    (s : Statement) (b c : Option ℕ) (ls : List Line)
    → let m : Memory = record { bar_i = b; class_i = c; cout = ls } in
      Printed m → Printed (execute s m) × (numbers (execute s m).cout ≡ value s ∷ numbers ls)
unfolding read_class init_class foo bar bar2
execute-Printed print_class b none ls p = (
  record { function = p.function; class = λ i. suc (p.class i); hundred = λ i e. ground arith },
  refl,
)
execute-Printed print_class b (some i) ls p = (
  record { function = p.function; class = p.class; hundred = p.hundred },
  rw (p.hundred i refl) refl,
)
execute-Printed print_bar none c ls p =
    (record { function = λ i. suc (p.function i); class = p.class; hundred = p.hundred }, refl)
execute-Printed print_bar (some i) c ls p =
    (record { function = p.function; class = p.class; hundred = p.hundred }, refl)

executes-Printed :
    (ss : List Statement) (m : Memory)
    → Printed m
    → Printed (executes ss m) × (numbers (executes ss m).cout ≡ values_after ss (numbers m.cout))
unfolding executes
executes-Printed [] m p = (p, refl)
executes-Printed (s ∷ ss) m p =
    let (p', e) = execute-Printed s m.bar_i m.class_i m.cout p in
    let (q, f) = executes-Printed ss (execute s m) p' in (q, f ∙ ap (values_after ss) e)

at_most_once : (n : ℕ) (o : Option ℕ) → n ≡ (elim o [ none ↦ 0 | some i ↦ 1 ]) → n ≤ 1
at_most_once n none e = omega arith
at_most_once n (some i) e = omega arith

-- Whatever of the two variables a program prints, and whenever `S::i` is initialised, each message is printed at most
-- once, and the numbers are 3 and 100, in the order in which they are printed.
pub statics_once :
    (deferred : Bool) (ss : List Statement)
    → (function_messages (main deferred ss) ≤ 1)
      × (class_messages (main deferred ss) ≤ 1)
      × (numbers (main deferred ss) ≡ values_after ss [])
unfolding main init_class foo
statics_once true ss =
    let (p, e) =
      executes-Printed ss (print start_main nothing_yet)
        (record { function = refl; class = refl; hundred = λ i e. ground arith }) in
    (at_most_once _ _ p.function, at_most_once _ _ p.class, e)
statics_once false ss =
    let (p, e) =
      executes-Printed ss (print start_main (init_class nothing_yet))
        (record { function = refl; class = refl; hundred = λ i e. ground arith }) in
    (at_most_once _ _ p.function, at_most_once _ _ p.class, e)
