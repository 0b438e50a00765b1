-- ===== src/Core/Queue.antt =====
-- The queue SCQueue of CatSyn/src/queue.h: a linked list that many threads push to and one pops from,
-- an atomic operation at a time. A node is a number, in the order in which the nodes are put at the
-- head; an element that is absent is the request to stop. A push in progress is known by the node that
-- its exchange of the head gave it, since each node is given once.
pub mod Fifo
mod Tests
use cat_syn.Prelude.{
  ℕ, suc, ◌+◌, Bool, true, false, Option, none, some, List, [], ◌∷◌, ◌++◌, ◌==◌, if◌then◌else◌,
}

pub record Queue : Type 0 where
  pub next : ℕ → Option ℕ
  pub value : ℕ → Option ℕ
  pub head : ℕ
  pub tail : ℕ
  pub pending : ℕ → Option ℕ

abbrev pub update : (ℕ → Option ℕ) → ℕ → Option ℕ → ℕ → Option ℕ
update f i v j = if i == j then v else f j

-- `SCQueue()`: the stub.
abbrev pub new : Queue
new = record { next = λ i. none; value = λ i. none; head = 0; tail = 0; pending = λ i. none }

-- `push`, first half: the new node goes to the head.
unfoldable pub exchange : Queue → Option ℕ → Queue
exchange q v =
    let node = suc q.head in
    record q {
      value = update q.value node v;
      head = node;
      pending = update q.pending q.head (some node);
    }

-- `push`, second half: the node before it is told.
unfoldable pub link : Queue → ℕ → Queue
link q prev = elim (q.pending prev) [
  | none ↦ q
  | some node ↦ record q {
    next = update q.next prev (some node);
    pending = update q.pending prev none;
  }
]

-- `request_stop`, without a step of another thread between its halves.
unfoldable pub request_stop : Queue → Queue
unfolding exchange link
request_stop q = link (exchange q none) q.head

pub data Polled : Type 0 where
  taken : Option ℕ → Polled
  empty retry : Polled

-- One round of `pop`: an element, nothing, or `goto reload` as a push is in progress.
unfoldable pub pop : Queue → Polled × Queue
pop q = elim (q.next q.tail) [
  | some node ↦ (taken (q.value node), record q { tail = node; value = update q.value node none })
  | none ↦ if q.head == q.tail then (empty, q) else (retry, q)
]

pub data Event : Type 0 where
  begin : Option ℕ → Event
  end : ℕ → Event
  poll : Event

-- What was taken, with what the event takes.
abbrev pub taken_by : Polled → List (Option ℕ) → List (Option ℕ)
taken_by (taken v) out = out ++ v ∷ []
taken_by empty out = out
taken_by retry out = out

unfoldable pub run : Queue → List (Option ℕ) → List Event → Queue × List (Option ℕ)
unfolding exchange link pop
run q out [] = (q, out)
run q out (begin v ∷ es) = run (exchange q v) out es
run q out (end prev ∷ es) = run (link q prev) out es
run q out (poll ∷ es) = run (pop q).1 (taken_by (pop q).0 out) es

-- The elements in the order in which their nodes were put at the head.
abbrev pub pushed : List Event → List (Option ℕ)
pushed [] = []
pushed (begin v ∷ es) = v ∷ pushed es
pushed (end prev ∷ es) = pushed es
pushed (poll ∷ es) = pushed es
