-- ===== src/Devices/Tests.antt =====
-- Three tasks that use a disk at the same time.
use neonix.Prelude.{ℕ, ◌≡◌, refl, Option, some, arith, length, ◌>>=◌}
use neonix.Devices.{
  Queue, device_queue, place_of, insert_at, remove_at, request_begin, turn, neighbour,
  request_nextreq, request_end,
}
use neonix.Devices.Places.{Sorted}
use neonix.Devices.Serve.{Woken, start, begun, request_served}

-- Task 1 reads sector 50, then tasks 2 and 3 want sectors 90 and 10.
abbrev three : Queue
three = request_begin 3 10 (request_begin 2 90 (request_begin 1 50 device_queue))

-- The request of task 1 is done: task 2 is woken, on the way up.
next_up : (do (woken, q) ← request_end three; woken) ≡ some 2
unfolding request_end request_nextreq turn neighbour request_begin device_queue place_of insert_at
    remove_at
next_up = refl

-- Then task 3, on the way down.
next_down : (do (woken, q) ← request_end three; (woken', q') ← request_end q; woken') ≡ some 3
unfolding request_end request_nextreq turn neighbour request_begin device_queue place_of insert_at
    remove_at
next_down = refl

three_wait : length three.requests ≡ 3
unfolding request_begin device_queue place_of insert_at
three_wait = refl

request_served_example :
    Sorted three.requests
    × ((woken : Option ℕ) × (q' : Queue) × (request_end three ≡ some (woken, q')) × Woken woken q')
request_served_example =
    request_served three (begun 3 10 (begun 2 90 (begun 1 50 start))) (omega (arith, three_wait))
