-- ===== src/Tests/Programs.antt =====
-- What single programs do, at the inputs of config.txt.
use so_projeto.Prelude.{ℕ, ◌*◌}
use so_projeto.Const.{foodreq, foodready}
use so_projeto.Process.Calls.{Makes}
use so_projeto.Group.{group_life}
use so_projeto.Waiter.{request, serve}
use so_projeto.Chef.{chef_main}
use so_projeto.Receptionist.{GroupRecord, receptionist_loop}
use so_projeto.Requests.{
  only_down, only_up, is_request_possible, is_receptionist_req, is_wait_order, is_order_received,
  desk_requests_match, orders_match,
}

abbrev nobody : GroupRecord
nobody g = 0

desk_requests_match_example :
    ((g : ℕ)
      → Makes (only_down is_request_possible) 2 (group_life g)
        × Makes (only_up is_receptionist_req) 2 (group_life g))
    × Makes (only_down is_receptionist_req) (5 * 2) (receptionist_loop (5 * 2) nobody)
    × Makes (only_up is_request_possible) (5 * 2) (receptionist_loop (5 * 2) nobody)
desk_requests_match_example = desk_requests_match 5 nobody

orders_match_example :
    ((g : ℕ)
      → Makes (only_up is_wait_order) 1 (serve (request foodreq g))
        × Makes (only_down is_order_received) 1 (serve (request foodreq g))
        × Makes (only_up is_wait_order) 0 (serve (request foodready g))
        × Makes (only_down is_order_received) 0 (serve (request foodready g)))
    × Makes (only_down is_wait_order) 5 (chef_main 5)
    × Makes (only_up is_order_received) 5 (chef_main 5)
orders_match_example = orders_match 5
