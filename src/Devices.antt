-- ===== src/Devices.antt =====
-- The queue of requests in src/kernel/device.c. It is the list of the requests of a block device, in the
-- order of the links, with the place of the one that is carried out; `list_insert_sort` appears by
-- what LinkedList shows of it. `none` is a failed assert or an access by NULL.
pub mod Places
pub mod Begin
pub mod Serve
pub mod Tests
use neonix.Prelude.{
  ℕ, zero, suc, ◌+◌, ◌-◌, Option, none, some, List, [], ◌∷◌, leb, ◌==◌, if◌then◌else◌, length,
  get_elem?, ◌>>=◌, ◌>>◌,
}
use neonix.Tasks.{signed_less}

-- What the queue needs of `request_t`.
pub record Request : Type 0 where
  pub sector : ℕ
  pub task : Option ℕ

-- `device->direct`.
pub data Direct : Type 0 where
  direct_up : Direct
  direct_down : Direct

-- `request_list`, `direct`, and the place of the request that is carried out.
pub record Queue : Type 0 where
  pub requests : List Request
  pub direct : Direct
  pub active : ℕ

-- The queue of a new device, as `device_init` leaves it.
unfoldable pub device_queue : Queue
device_queue = record { requests = []; direct = direct_up; active = 0 }

-- The place of a new request: behind those whose sectors are not greater.
unfoldable pub place_of : (sector : ℕ) → List Request → ℕ
place_of sector [] = 0
place_of sector (q ∷ requests) =
    let rest = suc (place_of sector requests) in if signed_less sector q.sector then 0 else rest

unfoldable pub insert_at : ℕ → Request → List Request → List Request
insert_at zero r requests = r ∷ requests
insert_at (suc i) r [] = r ∷ []
insert_at (suc i) r (q ∷ requests) = q ∷ insert_at i r requests

unfoldable pub remove_at : ℕ → List Request → List Request
remove_at i [] = []
remove_at zero (q ∷ requests) = requests
remove_at (suc i) (q ∷ requests) = q ∷ remove_at i requests

-- `device_request` to the first `do_request` or the `task_block`, for the running task: the task
-- that is blocked, if one is, and the queue.
unfoldable pub request_begin : (current sector : ℕ) → Queue → Queue
request_begin current sector q =
    let i = place_of sector q.requests in
    if length q.requests == 0
    then record q {
      requests = insert_at i (record { sector = sector; task = none }) q.requests;
      active = i;
    }
    else record q {
      requests = insert_at i (record { sector = sector; task = some current }) q.requests;
      active = if leb i q.active then q.active + 1 else q.active;
    }

-- The direction after `request_nextreq`, of `n` requests at the place `i`.
unfoldable pub turn : (n i : ℕ) → Direct → Direct
turn n i direct_up = if i + 1 == n then direct_down else direct_up
turn n i direct_down = if i == 0 then direct_up else direct_down

-- The place of the next request in a direction.
unfoldable pub neighbour : (n i : ℕ) → Direct → Option ℕ
neighbour n i direct_up = if i + 1 == n then none else some (i + 1)
neighbour n i direct_down = if i == 0 then none else some (i - 1)

unfoldable pub request_nextreq : Queue → Direct × Option ℕ
request_nextreq q =
    let n = length q.requests in
    let direct = turn n q.active q.direct in (direct, neighbour n q.active direct)

-- `device_request` from the end of `do_request` on: the task that is woken, and the queue.
unfoldable pub request_end : Queue → Option (Option ℕ × Queue)
request_end q =
    let (direct, next) = request_nextreq q in
    let rest = remove_at q.active q.requests in
    elim next [
      | none ↦ some (none, record q { requests = rest; direct = direct })
      | some j ↦ do
        r ← get_elem? q.requests j
        task ← r.task
        some (
          some task,
          record { requests = rest; direct = direct; active = if leb q.active j then j - 1 else j },
        )
    ]
