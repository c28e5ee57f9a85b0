-- ===== src/HttpConnectionPool/Examples.antt =====
-- A pool that lends a connection, takes it back, and gets stuck on it.
use mingfwq.Prelude.{◌≡◌, refl, arith, true, false, none, [], ◌∷◌}
use mingfwq.HttpConnectionPool.{HttpConnectionPool, Dial, put, search, get_connection, release_ptr}
use mingfwq.HttpConnectionPool.Search.{get_connection_stuck}
use mingfwq.HttpConnectionPool.Lending.{
  IsCounted, Reach, here, next, lends, returns, Reach-IsCounted,
}

abbrev reachable : Dial
reachable = record { looked_up = true; created = true; connected = true }

abbrev new_pool : HttpConnectionPool
new_pool = record {
  connections = λ a. record { create_time = 0; request = 0 };
  next = 0;
  conns = [];
  total = 0;
  max_alive_time = 1000;
  max_request = 10;
}

new_pool-IsCounted : IsCounted new_pool []
new_pool-IsCounted = record { once = λ a. omega arith; made = λ a l. refl; counted = omega arith }

abbrev after_one : HttpConnectionPool
after_one = record new_pool {
  connections = put new_pool.connections 0 (record { create_time = 0; request = 0 });
  next = 1;
  total = 1;
}

abbrev one_held : HttpConnectionPool
one_held = release_ptr (λ a. true) 5000 0 after_one

lent_and_back : Reach new_pool [] one_held []
unfolding get_connection search
lent_and_back =
    next (next here (lends 1 (λ a. true) 5000 reachable 0 refl)) (returns [] [] (λ a. true) 5000 0)

Reach-IsCounted_example : IsCounted one_held []
Reach-IsCounted_example = Reach-IsCounted new_pool-IsCounted lent_and_back

get_connection_stuck_example :
    get_connection 50 (λ a. false) 5001 reachable (record new_pool { conns = 0 ∷ []; next = 1 })
    ≡ none
get_connection_stuck_example =
    get_connection_stuck 50 (λ a. false) 5001 reachable
      (record new_pool { conns = 0 ∷ []; next = 1 }) 0 [] refl refl
