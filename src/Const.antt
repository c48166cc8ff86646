-- ===== src/Const.antt =====
-- semaphore_restaurant/src/probConst.h, and the constants that
-- semaphore_restaurant/src/semSharedMemReceptionist.c defines for its `groupRecord`.
use so_projeto.Prelude.{ℕ}

abbrev pub max_groups : ℕ
max_groups = 16

abbrev pub num_tables : ℕ
num_tables = 2

-- Request identifiers.
abbrev pub tablereq : ℕ
tablereq = 1

abbrev pub billreq : ℕ
billreq = 2

abbrev pub foodreq : ℕ
foodreq = 3

abbrev pub foodready : ℕ
foodready = 4

-- Group states.
abbrev pub gotorest : ℕ
gotorest = 1

abbrev pub atreception : ℕ
atreception = 2

abbrev pub food_request : ℕ
food_request = 3

abbrev pub wait_for_food : ℕ
wait_for_food = 4

abbrev pub eat : ℕ
eat = 5

abbrev pub checkout : ℕ
checkout = 6

abbrev pub leaving : ℕ
leaving = 7

-- Chef states.
abbrev pub wait_for_order : ℕ
wait_for_order = 0

abbrev pub cook : ℕ
cook = 1

-- Waiter states; the receptionist shares the first.
abbrev pub wait_for_request : ℕ
wait_for_request = 0

abbrev pub inform_chef : ℕ
inform_chef = 1

abbrev pub take_to_table : ℕ
take_to_table = 2

-- Receptionist states.
abbrev pub assigntable : ℕ
assigntable = 1

abbrev pub recvpay : ℕ
recvpay = 2

-- The receptionist's record of each group.
abbrev pub toarrive : ℕ
toarrive = 0

abbrev pub wait : ℕ
wait = 1

abbrev pub attable : ℕ
attable = 2

abbrev pub done : ℕ
done = 3
