-- ===== src/Redis/Nodes.antt =====
-- Nodes, the leader and the locks of driver/redisdriver/driver.go: keys that expire. `at` is the
-- time of the Redis server, in milliseconds. `decode` is json.Unmarshal of a node.
use tasker.Base.{
  ℕ, ◌+◌, ◌/◌, Bool, true, false, not, Option, none, some, List, [], ◌∷◌, ◌++◌, String,
  if◌then◌else◌, str_eq, ltb, ltb_ℤ, pos, negsuc, any, select,
}
use tasker.Job.{Time, Duration, node_not_found}
use tasker.Sql.Store.{NodeRow}
use tasker.Sql.Statement.{Result, ok, err}
use tasker.Redis.Store.{change, Sent, send}

-- A key with its value and the time from which it is gone.
abbrev pub Key : Type 0 → Type 0
Key A = Option (A × ℕ)

-- GET.
abbrev pub value_at {ℓ} : {A : Type ℓ} → ℕ → Option (A × ℕ) → Option A
value_at at none = none
value_at at (some (a, until)) = if ltb at until then some a else none

-- `nodes` is the set "nodes", `node_keys id` the key "node:" .. id, and `locks key` the key
-- "lock:" .. key.
pub record Keys : Type 0 where
  pub nodes : List String
  pub node_keys : String → Key NodeRow
  pub leader : Key String
  pub locks : String → Key String

-- Milliseconds(), and at least 1.
unfoldable pub ttl_millis : Duration → ℕ
ttl_millis (pos n) = if ltb (n / 1_000_000) 1 then 1 else n / 1_000_000
ttl_millis (negsuc n) = 1

abbrev pub sadd : String → List String → List String
sadd id ids = if any (str_eq id) ids then ids else ids ++ id ∷ []

abbrev pub srem : String → List String → List String
srem id ids = select (λ other. not (str_eq id other)) ids

unfoldable pub register_node :
    Sent → ℕ → NodeRow → Duration → Time → Keys → Result (Unit {0}) × Keys
unfolding ttl_millis
register_node sent at node ttl now k =
    send sent
      (λ t. (
        ok tt,
        record t {
          node_keys =
              change node.node_id (some (record node { last_heartbeat = now }, at + ttl_millis ttl))
                t.node_keys;
          nodes = sadd node.node_id t.nodes;
        },
      ))
      k

unfoldable pub deregister_node : Sent → String → Keys → Result (Unit {0}) × Keys
deregister_node sent id k =
    send sent
      (λ t. (ok tt, record t { node_keys = change id none t.node_keys; nodes = srem id t.nodes })) k

abbrev pub beat_script : ℕ → String → ℕ → Time → Option NodeRow → Keys → Result (Unit {0}) × Keys
beat_script at id ttl now none k = (err node_not_found, k)
beat_script at id ttl now (some node) k = (
  ok tt,
  record k {
    node_keys = change id (some (record node { last_heartbeat = now }, at + ttl)) k.node_keys;
  },
)

unfoldable pub heartbeat : Sent → ℕ → String → Duration → Time → Keys → Result (Unit {0}) × Keys
unfolding ttl_millis
heartbeat sent at id ttl now k =
    send sent (λ t. beat_script at id (ttl_millis ttl) now (value_at at (t.node_keys id)) t) k

-- What the loop of ListNodes has gathered: nodes, and ids whose keys are gone.
abbrev pub Gathered : Type 0
Gathered = Result (List NodeRow × List String)

abbrev pub and_node : NodeRow → Gathered → Gathered
and_node node (ok (nodes, stale)) = ok (node ∷ nodes, stale)
and_node node (err e) = err e

abbrev pub and_stale : String → Gathered → Gathered
and_stale id (ok (nodes, stale)) = ok (nodes, id ∷ stale)
and_stale id (err e) = err e

-- One round of the loop: `sent` is what becomes of its GET.
abbrev pub gather_one :
    (NodeRow → Result NodeRow) → Sent → String → Option NodeRow → Gathered → Gathered
gather_one decode (Sent.not_run e) id o rest = err e
gather_one decode (Sent.reply_lost e) id o rest = err e
gather_one decode Sent.answered id none rest = and_stale id rest
gather_one decode Sent.answered id (some node) rest = elim (decode node) [
  | ok row ↦ and_node row rest
  | err e ↦ err e
]

unfoldable pub gather :
    (NodeRow → Result NodeRow)
    → (String → Sent)
    → ℕ
    → (String → Key NodeRow)
    → List String
    → Gathered
gather decode gets at keys [] = ok ([], [])
gather decode gets at keys (id ∷ ids) =
    gather_one decode (gets id) id (value_at at (keys id)) (gather decode gets at keys ids)

unfoldable pub insert_by_start : NodeRow → List NodeRow → List NodeRow
insert_by_start n [] = n ∷ []
insert_by_start n (m ∷ ms) =
    if ltb_ℤ m.started_at n.started_at then m ∷ insert_by_start n ms else n ∷ m ∷ ms

unfoldable pub by_start : List NodeRow → List NodeRow
unfolding insert_by_start
by_start [] = []
by_start (n ∷ ns) = insert_by_start n (by_start ns)

abbrev pub srem_all : List String → List String → List String
srem_all [] ids = ids
srem_all (id ∷ rest) ids = srem_all rest (srem id ids)

-- The SREM of stale ids may fail; that is not looked at.
abbrev pub drop_stale : Sent → List String → Keys → Keys
drop_stale sent [] k = k
drop_stale sent (id ∷ ids) k =
    (send sent (λ t. (ok tt, record t { nodes = srem_all (id ∷ ids) t.nodes })) k).1

abbrev pub listed : Sent → Gathered → Keys → Result (List NodeRow) × Keys
listed srem_sent (err e) k = (err e, k)
listed srem_sent (ok (nodes, stale)) k = (ok (by_start nodes), drop_stale srem_sent stale k)

abbrev pub gather_members :
    (NodeRow → Result NodeRow)
    → (String → Sent)
    → ℕ
    → (String → Key NodeRow)
    → Result (List String)
    → Gathered
gather_members decode gets at keys (err e) = err e
gather_members decode gets at keys (ok ids) = gather decode gets at keys ids

unfoldable pub list_nodes :
    (NodeRow → Result NodeRow)
    → Sent
    → (String → Sent)
    → Sent
    → ℕ
    → Keys
    → Result (List NodeRow) × Keys
unfolding gather by_start
list_nodes decode members gets srem_sent at k =
    listed srem_sent
      (gather_members decode gets at k.node_keys (send members (λ t. (ok t.nodes, t)) k).0) k

-- renewScript: SET with an expiry, or PEXPIRE, or nothing.
abbrev pub renew_owner : String → ℕ → ℕ → Option String → Key String → Bool × Key String
renew_owner node ttl at none key = (true, some (node, at + ttl))
renew_owner node ttl at (some owner) key =
    if str_eq owner node then (true, some (owner, at + ttl)) else (false, key)

unfoldable pub renew_script : String → ℕ → ℕ → Key String → Bool × Key String
renew_script node ttl at key = renew_owner node ttl at (value_at at key) key

abbrev pub delete_owned : String → Option String → Key String → Key String
delete_owned node none key = key
delete_owned node (some owner) key = if str_eq owner node then none else key

-- ownerDeleteScript.
unfoldable pub owner_delete : String → ℕ → Key String → Key String
owner_delete node at key = delete_owned node (value_at at key) key

unfoldable pub leader_election : Sent → ℕ → String → Duration → Keys → Result Bool × Keys
unfolding renew_script ttl_millis
leader_election sent at node ttl k =
    send sent
      (λ t.
        let (won, key) = renew_script node (ttl_millis ttl) at t.leader in
        (ok won, record t { leader = key }))
      k

abbrev pub is_value : String → Option String → Bool
is_value node none = false
is_value node (some owner) = str_eq owner node

unfoldable pub is_leader : Sent → ℕ → String → Keys → Result Bool × Keys
is_leader sent at node k = send sent (λ t. (ok (is_value node (value_at at t.leader)), t)) k

unfoldable pub resign_leadership : Sent → ℕ → String → Keys → Result (Unit {0}) × Keys
unfolding owner_delete
resign_leadership sent at node k =
    send sent (λ t. (ok tt, record t { leader = owner_delete node at t.leader })) k

unfoldable pub acquire_lock : Sent → ℕ → String → String → Duration → Keys → Result Bool × Keys
unfolding renew_script ttl_millis
acquire_lock sent at key node ttl k =
    send sent
      (λ t.
        let (won, held) = renew_script node (ttl_millis ttl) at (t.locks key) in
        (ok won, record t { locks = change key held t.locks }))
      k

unfoldable pub release_lock : Sent → ℕ → String → String → Keys → Result (Unit {0}) × Keys
unfolding owner_delete
release_lock sent at key node k =
    send sent
      (λ t. (ok tt, record t { locks = change key (owner_delete node at (t.locks key)) t.locks })) k
