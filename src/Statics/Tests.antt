-- ===== src/Statics/Tests.antt =====
-- The singleton with concrete classes, and the program of cpp/magic_static.cpp.
use cs_learning_notes.Base.{
  ℕ, ◌≡◌, refl, true, false, none, some, List, [], ◌∷◌, ◌+◌, ◌==◌, ◌&&◌, if◌then◌else◌,
}
use cs_learning_notes.Statics.Singleton.{
  Persistence, Call, read_it, write_it, set_it, null, at_start, init_instance,
  get_persistence_interface, read, write, run,
}
use cs_learning_notes.Statics.Injected.{expected, outcome, singleton_refines}
use cs_learning_notes.Statics.Magic.{
  number, init_function_static, init_class_static, start_main, print_class, print_bar, main,
  executes, init_class, read_class, foo, bar, bar2,
}

-- The Database stands at 1 and reads whether it is made and written to; at 2 is a stand-in, which does nothing.
abbrev classes : Persistence ℕ
classes = record {
  do_read = λ p w. (p == 1) && (w == 11);
  do_write = λ p w. (true, if p == 1 then w + 1 else w);
  db = 1;
  construct_database = λ w. w + 10;
}

abbrev program : List Call
program = write_it ∷ read_it ∷ set_it 2 ∷ write_it ∷ read_it ∷ []

program-outcome :
    outcome classes (run classes program (at_start 0)) ≡ some (true ∷ true ∷ true ∷ false ∷ [], 11)
unfolding run read write get_persistence_interface init_instance
program-outcome = refl

-- A null pointer that is injected after the first use stays.
null_stays : run classes (read_it ∷ set_it null ∷ read_it ∷ []) (at_start 0) ≡ none
unfolding run read write get_persistence_interface init_instance
null_stays = refl

singleton_refines_example :
    outcome classes (run classes program (at_start 0)) ≡ expected classes [] program 0
singleton_refines_example = singleton_refines classes program 0

-- What that program prints, the last line first.
printed :
    main false (print_class ∷ print_bar ∷ [])
    ≡ number 3 ∷ init_function_static ∷ number 100 ∷ start_main ∷ init_class_static ∷ []
unfolding main executes init_class read_class foo bar bar2
printed = refl

printed_deferred :
    main true (print_class ∷ print_bar ∷ [])
    ≡ number 3 ∷ init_function_static ∷ number 100 ∷ init_class_static ∷ start_main ∷ []
unfolding main executes init_class read_class foo bar bar2
printed_deferred = refl
