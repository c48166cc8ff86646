-- ===== src/Floor/Numbers.antt =====
-- The numbers of the semaphores of semaphore_restaurant/src/sharedDataSync.h by which the receptionist
-- and the groups tell each other nothing that is recorded.
use so_projeto.Prelude.{ℕ, ◌+◌, ◌≤◌, ◌<◌, refl, arith}
use so_projeto.Const.{num_tables, max_groups}
use so_projeto.SharedData.{
  waiter_request_possible, waiter_request, wait_order, order_received, request_received,
  food_arrived, table_done, sem_index,
}
use so_projeto.Floor.Steps.{FarNumber}

module _ (n : ℕ) where
  pub waiter_possible-FarNumber : FarNumber n waiter_request_possible
  unfolding sem_index
  waiter_possible-FarNumber = record {
    place = 5;
    numbered = record {
      number = refl;
      small = refl;
      positive = ground arith;
      below = ground arith;
    };
    far = ground arith;
  }

  pub waiter_request-FarNumber : FarNumber n waiter_request
  unfolding sem_index
  waiter_request-FarNumber = record {
    place = 4;
    numbered = record {
      number = refl;
      small = refl;
      positive = ground arith;
      below = ground arith;
    };
    far = ground arith;
  }

  pub wait_order-FarNumber : FarNumber n wait_order
  unfolding sem_index
  wait_order-FarNumber = record {
    place = 6;
    numbered = record {
      number = refl;
      small = refl;
      positive = ground arith;
      below = ground arith;
    };
    far = ground arith;
  }

  pub order_received-FarNumber : FarNumber n order_received
  unfolding sem_index
  order_received-FarNumber = record {
    place = 7;
    numbered = record {
      number = refl;
      small = refl;
      positive = ground arith;
      below = ground arith;
    };
    far = ground arith;
  }

  module _ (few : n ≤ max_groups) (t : ℕ) (lt : t < num_tables) where
    pub food-FarNumber : FarNumber n (food_arrived t)
    unfolding sem_index
    food-FarNumber = record {
      place = 8 + n + t;
      numbered = record {
        number = ground arith;
        small = ground arith;
        positive = ground arith;
        below = ground arith;
      };
      far = ground arith;
    }

    pub received-FarNumber : FarNumber n (request_received t)
    unfolding sem_index
    received-FarNumber = record {
      place = 8 + n + 2 + t;
      numbered = record {
        number = ground arith;
        small = ground arith;
        positive = ground arith;
        below = ground arith;
      };
      far = ground arith;
    }

    pub done-FarNumber : FarNumber n (table_done t)
    unfolding sem_index
    done-FarNumber = record {
      place = 8 + n + 2 + 2 + t;
      numbered = record {
        number = ground arith;
        small = ground arith;
        positive = ground arith;
        below = ground arith;
      };
      far = ground arith;
    }
