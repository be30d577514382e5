-- ===== src/Allocator/Allocations.antt =====
-- internal/allocator/allocator.go: the `Allocator`, its pools by name and its allocations by
-- service, with the two gauges of stats.go. A gauge holds a float64 in the source and the exact
-- number here.
pub mod Exclusive
pub mod Placement
pub mod Handing
pub mod Pools
pub mod Runs
pub mod Outcomes
use resource_model.Base.{
  ℕ, ite, Bool, true, false, List, [], ◌∷◌, ◌++◌, Option, none, some, Text, text, text_dec, Result,
  ok, err, ◌==◌, if◌then◌else◌,
}
use resource_model.GoMap.{GoMap, lookup, insert, delete}
use resource_model.Allocator.Ip.{Ip}
use resource_model.Allocator.Range.Parse
use resource_model.Allocator.Range.Parse.{new_ip_range}
use resource_model.Allocator.Pool
use resource_model.Allocator.Pool.{LocalPool, ServicePort, Key}

-- `AddressPool` and `ServicePrefix` of api/v1/serviceprefix_types.go, without the bridge.
pub record AddressPool : Type 0 where
  pub pool : Text
  pub subnet : Text
  pub aggregation : Text

-- `PublicPool` is a pointer that `AddPrefix` follows without a test.
pub record ServicePrefix : Type 0 where
  pub name : Text
  pub public_pool : Option AddressPool
  pub alt_pool : Option AddressPool

abbrev pub alt_address_suffix : Text
alt_address_suffix = text "-alt"

pub record Alloc : Type 0 where
  pub pool : Text
  pub ip : Ip
  pub ports : List ServicePort
  pub key : Key

pub record Allocator : Type 0 where
  pub pools : GoMap Text LocalPool
  pub allocated : GoMap Text Alloc
  pub pool_capacity : GoMap Text ℕ
  pub pool_active : GoMap Text ℕ

-- Each constructor is one message of the source; `panic` is a run-time error.
pub data Error : Type 0 where
  bad_pool bad_alt_pool : Text → Parse.Error → Error
  pool_has_allocations : Text → Error
  not_in_config : Ip → Error
  unknown_pool : Text → Error
  pool_error : Pool.Error → Error
  panic : Error

unfoldable pub new_allocator : Allocator
new_allocator = record { pools = []; allocated = []; pool_capacity = []; pool_active = [] }

-- The loop of `ValidateDelete`: `none` is a nil error.
unfoldable pub pool_in_use : Text → GoMap Text Alloc → Option Error
pool_in_use name [] = none
pool_in_use name ((svc, al) ∷ allocated) =
    ite (text_dec al.pool name) (some (pool_has_allocations name)) (pool_in_use name allocated)

unfoldable pub validate_delete : Allocator → ServicePrefix → Option Error
validate_delete a sp = pool_in_use sp.name a.allocated

unfoldable pub remove_pool : Allocator → ServicePrefix → Allocator × Option Error
unfolding validate_delete
remove_pool a sp = elim (validate_delete a sp) [
  | some e ↦ (a, some e)
  | none ↦ (
    record a {
      pools = delete text_dec sp.name a.pools;
      pool_capacity = delete text_dec sp.name a.pool_capacity;
      pool_active = delete text_dec sp.name a.pool_active;
    },
    none,
  )
]

-- `pool.Release` and the gauge, if the pool is there.
unfoldable pub release_from : Allocator → Text → Alloc → Allocator
release_from a svc al = elim (lookup text_dec al.pool a.pools) [
  | none ↦ a
  | some pool ↦
      let pool' = Pool.release pool al.ip svc in
      record a {
        pools = insert text_dec al.pool pool' a.pools;
        pool_active = insert text_dec al.pool (Pool.in_use pool') a.pool_active;
      }
]

unfoldable pub unassign : Allocator → Text → Allocator × Bool
unfolding release_from
unassign a svc = elim (lookup text_dec svc a.allocated) [
  | none ↦ (a, true)
  | some al ↦
      let a' = release_from a svc al in
      (record a' { allocated = delete text_dec svc a'.allocated }, true)
]

-- The pool after `pool.Assign`, whose error `assign` drops.
abbrev assigned : LocalPool → Text → Alloc → LocalPool
assigned pool svc al = elim (Pool.assign pool al.ip al.ports svc (some al.key)) [
  | ok pool' ↦ pool'
  | err _ ↦ pool
]

-- The end of `assign`: `pool` is nil where the allocator has no such pool, and its use panics.
unfoldable pub record_assignment : Allocator → Text → Alloc → Result Error Allocator
record_assignment a svc al = elim (lookup text_dec al.pool a.pools) [
  | none ↦ err panic
  | some pool ↦
      let pool' = assigned pool svc al in
      elim (Pool.size pool') [
        | none ↦ err panic
        | some size ↦ ok (record a {
          pools = insert text_dec al.pool pool' a.pools;
          pool_capacity = insert text_dec al.pool size a.pool_capacity;
          pool_active = insert text_dec al.pool (Pool.in_use pool') a.pool_active;
        })
      ]
]

unfoldable pub assign_alloc : Allocator → Text → Alloc → Result Error Allocator
unfolding record_assignment
assign_alloc a svc al =
    let a' = (unassign a svc).0 in
    record_assignment (record a' { allocated = insert text_dec svc al a'.allocated }) svc al

-- The first pool, in the order of the map, that contains the address.
unfoldable pub pool_for : GoMap Text LocalPool → Ip → Text
pool_for [] ip = []
pool_for ((pname, p) ∷ pools) ip = if Pool.contains p ip then pname else pool_for pools ip

abbrev pub alloc_of : Text → Ip → List ServicePort → Text → Alloc
alloc_of pool ip ports sharing_key = record {
  pool = pool;
  ip = ip;
  ports = ports;
  key = record { sharing = sharing_key };
}

-- `Assign`: the pool's name and the new state.
unfoldable pub assign :
    Allocator → Text → Ip → List ServicePort → Text → Result Error (Text × Allocator)
assign a svc ip ports sharing_key =
    let pool = pool_for a.pools ip in
    ite (text_dec pool []) (err (not_in_config ip)) (elim (lookup text_dec pool a.pools) [
      | none ↦ err panic
      | some p ↦ elim (Pool.available p ip ports svc (some (record { sharing = sharing_key }))) [
        | some e ↦ err (pool_error e)
        | none ↦ elim (assign_alloc a svc (alloc_of pool ip ports sharing_key)) [
          | err e ↦ err e
          | ok a' ↦ ok (pool, a')
        ]
      ]
    ])

-- `AllocateFromPool`. The fuel bounds the walk of `AssignNext` through the pool.
unfoldable pub allocate_new :
    ℕ → Allocator → Text → Text → List ServicePort → Text → Result Error (Ip × Allocator)
allocate_new fuel a svc pool_name ports sharing_key = elim (lookup text_dec pool_name a.pools) [
  | none ↦ err (unknown_pool pool_name)
  | some pool ↦
      elim (Pool.assign_next fuel pool svc ports (some (record { sharing = sharing_key }))) [
        | err e ↦ err (pool_error e)
        | ok (ip, pool') ↦
            elim (assign_alloc (record a { pools = insert text_dec pool_name pool' a.pools }) svc
              (alloc_of pool_name ip ports sharing_key)) [ err e ↦ err e | ok a' ↦ ok (ip, a') ]
      ]
]

unfoldable pub allocate_from_pool :
    ℕ → Allocator → Text → Text → List ServicePort → Text → Result Error (Ip × Allocator)
unfolding allocate_new
allocate_from_pool fuel a svc pool_name ports sharing_key = elim (lookup text_dec svc a.allocated) [
  | some al ↦ ok (al.ip, a)
  | none ↦ allocate_new fuel a svc pool_name ports sharing_key
]

-- `ip`: `none` is the nil address.
unfoldable pub ip : Allocator → Text → Option Ip
ip a svc = elim (lookup text_dec svc a.allocated) [ none ↦ none | some al ↦ some al.ip ]

module _ (parse_ip : Text → Option Ip) (parse_cidr : Text → Option (Ip × (Ip → Bool)))
    (fuel : ℕ) where
  -- `NewLocalPool` of an address pool.
  abbrev pool_of : AddressPool → Result Parse.Error LocalPool
  pool_of ap =
      Pool.new_local_pool (new_ip_range parse_ip parse_cidr fuel ap.pool) ap.subnet ap.aggregation

  -- The end of `AddPrefix`, for the alternative pool.
  unfoldable pub add_alt_pool : Allocator → ServicePrefix → Allocator × Option Error
  add_alt_pool a sp = elim sp.alt_pool [
    | none ↦ (a, none)
    | some alt ↦ elim (pool_of alt) [
      | err e ↦ (a, some (bad_alt_pool sp.name e))
      | ok pool ↦
          (record a { pools = insert text_dec (sp.name ++ alt_address_suffix) pool a.pools }, none)
    ]
  ]

  -- Beside the error it returns the state, which holds the first pool also if the second is bad.
  unfoldable pub add_prefix : Allocator → ServicePrefix → Allocator × Option Error
  unfolding add_alt_pool
  add_prefix a sp = elim sp.public_pool [
    | none ↦ (a, some panic)
    | some public ↦ elim (pool_of public) [
      | err e ↦ (a, some (bad_pool sp.name e))
      | ok pool ↦
          let a' = record a { pools = insert text_dec sp.name pool a.pools } in
          elim (Pool.size pool) [
            | none ↦ (a', some panic)
            | some size ↦
                add_alt_pool
                  (record a' {
                    pool_capacity = insert text_dec sp.name size a.pool_capacity;
                    pool_active = insert text_dec sp.name (Pool.in_use pool) a.pool_active;
                  })
                  sp
          ]
    ]
  ]
