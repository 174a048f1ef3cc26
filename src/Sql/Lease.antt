-- ===== src/Sql/Lease.antt =====
-- Nodes, the leader's lease and locks of driver/sqldriver/driver.go.
use tasker.Base.{
  ℕ, Bool, true, false, ◌&&◌, ◌||◌, Option, none, some, List, [], ◌∷◌, String, pos, ltb_ℤ, leb_ℤ,
  ◌+ℤ◌, ◌-ℤ◌, ltb, ◌==◌, count, any, select, str_eq, if◌then◌else◌, ◌*◌,
}
use tasker.Job.{Time, Duration, Error, failure, node_not_found, second, node_liveness_window}
use tasker.Sql.Store.{Db, NodeRow, LeaderRow, LockRow, update_where, delete_where, find_first}
use tasker.Sql.Statement.{Result, ok, err, World, M, ◌>>=◌, ◌>>◌, pure, throw, statement}

abbrev pub is_node : String → NodeRow → Bool
is_node node n = str_eq n.node_id node

-- INSERT … ON CONFLICT DO UPDATE.
upsert_node : NodeRow → Db → Result (Unit {0}) × Db
upsert_node node d =
    if any (is_node node.node_id) d.nodes
    then (ok tt, record d { nodes = update_where (is_node node.node_id) (λ n. node) d.nodes })
    else (ok tt, record d { nodes = node ∷ d.nodes })

unfoldable pub register_node : NodeRow → Time → M (Unit {0})
unfolding upsert_node
register_node node now = statement (upsert_node (record node { last_heartbeat = now }))

unfoldable pub deregister_node : String → M (Unit {0})
deregister_node node =
    statement (λ d. (ok tt, record d { nodes = delete_where (is_node node) d.nodes }))

-- MySQL reports no row affected where nothing changed, hence the second look.
abbrev pub beat : String → Time → Db → Result ℕ × Db
beat node now d = (
  ok (count (is_node node) d.nodes),
  record d { nodes = update_where (is_node node) (λ r. record r { last_heartbeat = now }) d.nodes },
)

abbrev pub look_again : String → M (Unit {0})
look_again node = do
  exists ← statement (λ d. (ok (count (is_node node) d.nodes), d))
  if exists == 0 then throw node_not_found else pure tt

unfoldable pub heartbeat : String → Time → M (Unit {0})
heartbeat node now = do n ← statement (beat node now); if n == 0 then look_again node else pure tt

abbrev pub is_alive : Time → NodeRow → Bool
is_alive now n = ltb_ℤ (now -ℤ node_liveness_window) n.last_heartbeat

insert_node : NodeRow → List NodeRow → List NodeRow
insert_node n [] = n ∷ []
insert_node n (m ∷ ms) =
    if leb_ℤ n.started_at m.started_at then n ∷ m ∷ ms else m ∷ insert_node n ms

order_nodes : List NodeRow → List NodeRow
unfolding insert_node
order_nodes [] = []
order_nodes (n ∷ ns) = insert_node n (order_nodes ns)

unfoldable pub list_nodes : Time → M (List NodeRow)
unfolding order_nodes
list_nodes now = statement (λ d. (ok (order_nodes (select (is_alive now) d.nodes)), d))

-- UPDATE leader … WHERE id = 1 AND (node_id = … OR last_heartbeat <= …).
abbrev pub take_leader : String → Time → Duration → Db → Result ℕ × Db
take_leader node now ttl d = elim d.leader [
  | none ↦ (ok 0, d)
  | some l ↦
      if str_eq l.node_id node || leb_ℤ l.last_heartbeat (now -ℤ ttl)
      then (
        ok 1,
        record d {
          leader = some (record { node_id = node; started_at = now; last_heartbeat = now });
        },
      )
      else (ok 0, d)
]

-- INSERT INTO leader … ON CONFLICT DO NOTHING.
abbrev pub insert_leader : String → Time → Db → Result ℕ × Db
insert_leader node now d = elim d.leader [
  | none ↦ (
    ok 1,
    record d { leader = some (record { node_id = node; started_at = now; last_heartbeat = now }) },
  )
  | some l ↦ (ok 0, d)
]

abbrev pub read_leader : String → Db → Result Bool × Db
read_leader node d = elim d.leader [
  | none ↦ (err (failure "sql: no rows in result set"), d)
  | some l ↦ (ok (str_eq l.node_id node), d)
]

abbrev pub elect_fresh : String → Time → M Bool
elect_fresh node now = do
  inserted ← statement (insert_leader node now)
  if inserted == 1 then pure true else statement (read_leader node)

unfoldable pub leader_election : String → Duration → Time → M Bool
leader_election node ttl now = do
  rows ← statement (take_leader node now ttl)
  if ltb 0 rows then pure true else elect_fresh node now

abbrev pub is_leader_row : String → Time → Option LeaderRow → Bool
is_leader_row node now none = false
is_leader_row node now (some l) =
    str_eq l.node_id node && ltb_ℤ (now -ℤ pos (15 * second)) l.last_heartbeat

unfoldable pub is_leader : String → Time → M Bool
is_leader node now = statement (λ d. (ok (is_leader_row node now d.leader), d))

abbrev pub resign_row : String → Option LeaderRow → Option LeaderRow
resign_row node none = none
resign_row node (some l) = if str_eq l.node_id node then none else some l

unfoldable pub resign_leadership : String → M (Unit {0})
resign_leadership node = statement (λ d. (ok tt, record d { leader = resign_row node d.leader }))

abbrev pub is_lock : String → LockRow → Bool
is_lock key l = str_eq l.lock_key key

-- UPDATE locks SET expires_at … WHERE lock_key = … AND node_id = … AND expires_at > now.
abbrev pub renew_lock : String → String → Time → Duration → Db → Result ℕ × Db
renew_lock key node now ttl d =
    let mine : LockRow → Bool =
      λ l. is_lock key l && (str_eq l.node_id node && ltb_ℤ now l.expires_at) in
    (
      ok (count mine d.locks),
      record d { locks = update_where mine (λ l. record l { expires_at = now +ℤ ttl }) d.locks },
    )

abbrev pub delete_expired : String → Time → Db → Result (Unit {0}) × Db
delete_expired key now d = (
  ok tt,
  record d { locks = delete_where (λ l. is_lock key l && leb_ℤ l.expires_at now) d.locks },
)

-- The primary key refuses a second row for a key.
abbrev pub insert_lock : String → String → Time → Db → Result (Unit {0}) × Db
insert_lock key node expires_at d =
    if any (is_lock key) d.locks then (err (failure "UNIQUE constraint failed: lock_key"), d) else (
      ok tt,
      record d {
        locks = record { lock_key = key; node_id = node; expires_at = expires_at } ∷ d.locks;
      },
    )

abbrev pub read_owner : String → Db → Result String × Db
read_owner key d = elim (find_first (is_lock key) d.locks) [
  | none ↦ (err (failure "sql: no rows in result set"), d)
  | some l ↦ (ok l.node_id, d)
]

-- What AcquireLock makes of the row that it reads after a failed insert.
abbrev pub owner_answer : String → Error → Result String × World → Result Bool × World
owner_answer node e (ok owner, w) = (ok (str_eq owner node), w)
owner_answer node e (err scan_err, w) = (err e, w)

abbrev pub after_insert : String → String → Result (Unit {0}) × World → Result Bool × World
after_insert key node (ok u, w) = (ok true, w)
after_insert key node (err e, w) = owner_answer node e (statement (read_owner key) w)

abbrev pub try_insert : String → String → Time → M Bool
try_insert key node expires_at w =
    after_insert key node (statement (insert_lock key node expires_at) w)

abbrev pub lock_fresh : String → String → Duration → Time → M Bool
lock_fresh key node ttl now = do
  statement (delete_expired key now)
  try_insert key node (now +ℤ ttl)

unfoldable pub acquire_lock : String → String → Duration → Time → M Bool
acquire_lock key node ttl now = do
  n ← statement (renew_lock key node now ttl)
  if ltb 0 n then pure true else lock_fresh key node ttl now

unfoldable pub release_lock : String → String → M (Unit {0})
release_lock key node = statement (λ d. (
  ok tt,
  record d { locks = delete_where (λ l. is_lock key l && str_eq l.node_id node) d.locks },
))
