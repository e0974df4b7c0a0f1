-- ===== src/Data/Connections.antt =====
-- server/src/data/ConnectionPool.h and ConnectionPool.cpp: the pool, the wrapper of a connection that
-- is lent, and the tasks that replace a broken one.
use cpp_chat_server.Prelude.{
  ℕ, zero, suc, ◌+◌, ◌≡◌, refl, ap, ◌∙◌, Bool, true, false, List, [], ◌∷◌, Option, none, some,
  arith, length,
}

-- A pool, and what its connections are doing.
pub record ConnectionPool : Type 0 where
  -- ConPool, the back of the vector first, by handles
  pub idle : List ℕ
  -- the connections that wrappers hold
  pub lent : ℕ
  -- the tasks of replenishConnectionAsync that have not run
  pub pending : ℕ
  -- those of them that could not connect
  pub failed : ℕ

-- The loop of `init`, with the handles of the new connections. A connection that cannot be made ends main,
-- and is not modelled here.
fill : ℕ → (ℕ → ℕ) → List ℕ
fill zero connect = []
fill (suc n) connect = connect n ∷ fill n connect

pub init : ℕ → (ℕ → ℕ) → ConnectionPool → ConnectionPool
unfolding fill
init size connect pool = elim pool.idle [
  | [] ↦ record pool { idle = fill size connect }
  | _ ∷ _ ↦ pool
]

-- initInstance: a second call changes nothing.
pub init_instance : ConnectionPool → Option ConnectionPool → Option ConnectionPool
init_instance fresh none = some fresh
init_instance fresh (some pool) = some pool

-- getInstance, which throws std::runtime_error before initInstance was called
pub get_instance : Option ConnectionPool → Option ConnectionPool
get_instance instance = instance

-- getConnection; with no idle connection, the thread waits and nothing changes.
pub get_connection : ConnectionPool → ConnectionPool
get_connection pool = elim pool.idle [
  | [] ↦ pool
  | _ ∷ rest ↦ record pool { idle = rest; lent = suc pool.lent }
]

pub return_connection : ℕ → ConnectionPool → ConnectionPool
return_connection c pool = record pool { idle = c ∷ pool.idle }

pub replenish_connection_async : ConnectionPool → ConnectionPool
replenish_connection_async pool = record pool { pending = suc pool.pending }

release : Bool → ℕ → ConnectionPool → ConnectionPool
unfolding return_connection replenish_connection_async
release true c pool = return_connection c pool
release false c pool = replenish_connection_async pool

-- The destructor of a ConnectionWrapper that holds the connection `c`; there is one for each
-- connection that is lent.
destroy_from : ℕ → Bool → ℕ → ConnectionPool → ConnectionPool
unfolding release
destroy_from zero is_valid c pool = pool
destroy_from (suc others) is_valid c pool = release is_valid c (record pool { lent = others })

pub destroy_wrapper : Bool → ℕ → ConnectionPool → ConnectionPool
unfolding destroy_from
destroy_wrapper is_valid c pool = destroy_from pool.lent is_valid c pool

-- The task of replenishConnectionAsync, with the new connection, or `none` where the constructor of
-- `soci::session` throws.
replenished : Option ℕ → ConnectionPool → ConnectionPool
unfolding return_connection
replenished (some c) pool = return_connection c pool
replenished none pool = record pool { failed = suc pool.failed }

replenish_from : ℕ → Option ℕ → ConnectionPool → ConnectionPool
unfolding replenished
replenish_from zero connected pool = pool
replenish_from (suc others) connected pool =
    replenished connected (record pool { pending = others })

pub replenish : Option ℕ → ConnectionPool → ConnectionPool
unfolding replenish_from
replenish connected pool = replenish_from pool.pending connected pool

-- What the threads of the server do to the pool, one at a time under its mutex.
pub data PoolEvent : Type 0 where
  takes : PoolEvent
  ends : (is_valid : Bool) (c : ℕ) → PoolEvent
  replenishes : Option ℕ → PoolEvent

pub pool_step : ConnectionPool → PoolEvent → ConnectionPool
unfolding get_connection destroy_wrapper replenish
pool_step pool takes = get_connection pool
pool_step pool (ends is_valid c) = destroy_wrapper is_valid c pool
pool_step pool (replenishes connected) = replenish connected pool

pub pool_run : ConnectionPool → List PoolEvent → ConnectionPool
pool_run pool [] = pool
pool_run pool (e ∷ l) = pool_run (pool_step pool e) l

-- Every connection that was ever made for the pool, or given up.
abbrev pub total : ConnectionPool → ℕ
total pool = length pool.idle + pool.lent + pool.pending + pool.failed

parts : List ℕ → ℕ → ℕ → ℕ → ConnectionPool
parts idle lent pending failed = record {
  idle = idle;
  lent = lent;
  pending = pending;
  failed = failed;
}

total-parts :
    (idle : List ℕ) (lent pending failed : ℕ) (e : PoolEvent)
    → total (pool_step (parts idle lent pending failed) e) ≡ total (parts idle lent pending failed)
unfolding pool_step parts
total-parts [] lent pending failed takes = refl
total-parts (c ∷ idle) lent pending failed takes = omega arith
total-parts idle zero pending failed (ends is_valid c) = refl
total-parts idle (suc lent) pending failed (ends true c) = omega arith
total-parts idle (suc lent) pending failed (ends false c) = omega arith
total-parts idle lent zero failed (replenishes connected) = refl
total-parts idle lent (suc pending) failed (replenishes none) = omega arith
total-parts idle lent (suc pending) failed (replenishes (some c)) = omega arith

pub pool_run-total :
    (pool : ConnectionPool) (l : List PoolEvent) → total (pool_run pool l) ≡ total pool
unfolding pool_run parts
pool_run-total pool [] = refl
pool_run-total pool (e ∷ l) =
    pool_run-total (pool_step pool e) l ∙ total-parts pool.idle pool.lent pool.pending pool.failed e

exhausted : ℕ → ConnectionPool
exhausted n = parts [] 0 0 n

step-exhausted : (n : ℕ) (e : PoolEvent) → pool_step (exhausted n) e ≡ exhausted n
unfolding pool_step exhausted parts
step-exhausted n takes = refl
step-exhausted n (ends is_valid c) = refl
step-exhausted n (replenishes connected) = refl

-- A pool in which no connection is idle, lent or to be replaced, because replacing them failed,
-- stays as it is whatever threads do: every call of getConnection waits for good.
pub pool_run_from_exhausted :
    (n : ℕ) (l : List PoolEvent)
    → pool_run (record { idle = []; lent = 0; pending = 0; failed = n }) l
      ≡ record { idle = []; lent = 0; pending = 0; failed = n }
unfolding pool_run exhausted parts
pool_run_from_exhausted n [] = refl
pool_run_from_exhausted n (e ∷ l) = rw (step-exhausted n e) (pool_run_from_exhausted n l)

-- A pool of `size` connections, all of them there.
length-fill : (size : ℕ) (connect : ℕ → ℕ) → length (fill size connect) ≡ size
unfolding fill
length-fill zero connect = refl
length-fill (suc n) connect = ap suc (length-fill n connect)

abbrev pub no_connections : ConnectionPool
no_connections = record { idle = []; lent = 0; pending = 0; failed = 0 }

-- After `init` of an empty pool with some size, and any order of connections that are lent, given
-- back, found broken and replaced: the connections that are idle, that are lent, that are to be
-- replaced and that could not be replaced add up to that size.
pub init-total :
    (size : ℕ) (connect : ℕ → ℕ) (l : List PoolEvent)
    → total (pool_run (init size connect no_connections) l) ≡ size
unfolding init
init-total size connect l =
    pool_run-total (init size connect no_connections) l ∙ omega (arith, length-fill size connect)
