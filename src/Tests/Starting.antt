-- ===== src/Tests/Starting.antt =====
-- The start and the end of the restaurant, at concrete inputs, under the system calls of SystemV.
use Prim.Native.Char.{code}
use Prim.Native.String.{String}
use so_projeto.Prelude.{◌≡◌, refl, none, some, [], ◌∷◌, ℤ, pos, negsuc, ◌==◌, if◌then◌else◌, arith}
use so_projeto.Process.{fault}
use so_projeto.CommandLine.{Text, skip_spaces, digit, scan_digits, strtol, to_int, print_int}
use so_projeto.CommandLine.Decimal.{strtol-print_int}
use so_projeto.Ipc.{Objects, Calls, find}
use so_projeto.Ipc.Laws.{IsCalls}
use so_projeto.System.{group, chef, initial_procs}
use so_projeto.Startup.{enters, start_group, start_process, arguments, program}
use so_projeto.Startup.Programs.{
  IsOpen, passed, started_programs, failed_attach_faults, negative_identifier_faults,
}
use so_projeto.Tests.SystemV.{system, system-IsCalls}

-- Every literal below is ASCII.
abbrev pub text_of : String → Text
text_of String.[] = []
text_of (String.◌∷◌ c s) = code c ∷ text_of s

strtol-print_int_example :
    (strtol (print_int (negsuc 2147483647)) ≡ (negsuc 2147483647, []))
    × (to_int (negsuc 2147483647) ≡ negsuc 2147483647)
strtol-print_int_example = strtol-print_int (negsuc 2147483647) (omega arith)

-- Octal and hexadecimal numbers, and what follows a number.
strtol_octal : strtol (text_of " +0127 x") ≡ (pos 87, text_of " x")
unfolding strtol skip_spaces digit scan_digits
strtol_octal = refl

strtol_hex : strtol (text_of "0x61066137") ≡ (pos 1627808055, [])
unfolding strtol skip_spaces digit scan_digits
strtol_hex = refl

abbrev pub key : ℤ
key = pos 1627808055

-- Nothing has been made yet.
abbrev pub nothing : Objects
nothing = record {
  blocks = [];
  sets = [];
  semaphores = λ id. record { size = 0; value = λ i. 0 };
  children = 0;
}

-- The block has been made, and the set, and the start has been signalled.
abbrev pub block_only : Objects
block_only = record nothing { blocks = (key, 1) ∷ [] }

abbrev open_objects : Objects
open_objects = record block_only {
  sets = (key, 1) ∷ [];
  semaphores = λ id. record { size = 19; value = λ i. if i == 0 then 1 else 0 };
}

open_objects-IsOpen : IsOpen open_objects key
unfolding find
open_objects-IsOpen = record {
  semgid = 1;
  shmid = 1;
  units = 0;
  set = refl;
  block = refl;
  inside = omega arith;
  signalled = refl;
  room = omega arith;
}

abbrev log : Text
log = text_of "log"

abbrev errors : Text
errors = text_of "error_GR03"

started_programs_example :
    program 100 5
      (group 3)
      (start_process system open_objects (group 3) (arguments (group 3) log key errors))
    ≡ some (initial_procs 100 5 (group 3))
started_programs_example =
    started_programs system-IsCalls open_objects key open_objects-IsOpen (omega arith) log errors
      (omega arith) 4096 refl 100 5 (group 3) (λ g e. ground arith)

-- The same system calls where no block can be mapped.
abbrev crowded : Calls
crowded = record system { shmat = λ w shmid. none }

crowded-IsCalls : IsCalls crowded
crowded-IsCalls = record {
  kernel = system-IsCalls.kernel;
  block_taken = system-IsCalls.block_taken;
  block_made = system-IsCalls.block_made;
  block_found = system-IsCalls.block_found;
  block_removed = system-IsCalls.block_removed;
  set_taken = system-IsCalls.set_taken;
  set_made = system-IsCalls.set_made;
  set_found = system-IsCalls.set_found;
  set_removed = system-IsCalls.set_removed;
  forked = system-IsCalls.forked;
  nobody = system-IsCalls.nobody;
}

failed_attach_faults_example :
    program 100 5 chef (start_process crowded open_objects chef (arguments chef log key errors))
    ≡ some fault
failed_attach_faults_example =
    failed_attach_faults crowded-IsCalls open_objects key open_objects-IsOpen (omega arith) log
      errors (omega arith) refl 100 5 chef (λ g e. cc)

negative_identifier_faults_example :
    (start_group system open_objects ([] ∷ print_int (negsuc 0) ∷ log ∷ print_int key ∷ errors ∷ [])
      ≡ enters (negsuc 0) (some 4096) (passed system-IsCalls open_objects key open_objects-IsOpen))
    × (program 100 5 (group 0) (
          start_group system open_objects
            ([] ∷ print_int (negsuc 0) ∷ log ∷ print_int key ∷ errors ∷ []))
        ≡ some fault)
negative_identifier_faults_example =
    negative_identifier_faults system-IsCalls open_objects key open_objects-IsOpen (omega arith) log
      errors (omega arith) 0 (omega arith) 100 5 0 []
