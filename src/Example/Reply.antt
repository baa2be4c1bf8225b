-- ===== src/Example/Reply.antt =====
-- example/ReactorExample.cpp: the loop that answers each message of a connection.
pub mod Once
mod Tests
use server_dev_lib.Base.{ℕ, ◌-◌, Option, none, some, List, [], ◌∷◌, ltb, length, if◌then◌else◌}
use server_dev_lib.Base.Text.{codes}
use server_dev_lib.Base.Int.{ℤ}
use server_dev_lib.Reactor.Delivery.{Center, handle_ready, notify_response_ready}

-- `class Request`
pub record Request : Type 0 where
  pub fd : ℤ
  pub data_bytes : List ℕ

-- `sizeof(struct person)`, three `int` of four bytes.
abbrev pub person_size : ℕ
person_size = 12

-- `GetRequest(fd, data)`: the copy reads `person_size` bytes of the text and the zero behind it; none where
-- that is more than there is, which is undefined.
unfoldable pub get_request : ℤ → List ℕ → Option Request
get_request fd data_bytes =
    if ltb (length data_bytes) (person_size - 1)
    then none
    else some (record { fd = fd; data_bytes = data_bytes })

abbrev pub reply : List ℕ
reply = codes "hello, client, thank you for your message."

-- `for ( auto & future : ret )`: each request is awaited and answered.
unfoldable pub reply_all : List (ℤ × List ℕ) → Center → Option Center
unfolding get_request notify_response_ready
reply_all [] r = some r
reply_all ((fd, data_bytes) ∷ tasks) r = elim (get_request fd data_bytes) [
  | none ↦ none
  | some request ↦ reply_all tasks (notify_response_ready request.fd reply r).0
]

-- The body of `while ( !dispatcher.Stop() )`; the tasks that a pass puts into the pool are those that it
-- awaits.
unfoldable pub answer : Center → Option Center
unfolding handle_ready reply_all
answer r = let r' = handle_ready (record r { tasks = [] }) in reply_all r'.tasks r'
