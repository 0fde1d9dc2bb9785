-- ===== src/WaitQueue.antt =====
-- kernel/wait_queue.c: the queue of blocked threads, linked through the fields `next` and `prev` of the
-- threads. Threads are numbered; a null pointer is `none`. The queue itself is never null.
pub mod Order
pub mod Frame
mod Tests
use toyix.Prelude.{ℕ, zero, suc, ◌+◌, Bool, true, false, ◌==◌, if◌then◌else◌, Option, none, some}

-- The two links of a thread.
pub record Links : Type 0 where
  pub next : Option ℕ
  pub prev : Option ℕ

-- The links of all threads, and the ends of the queue.
pub record Queue : Type 0 where
  pub links : ℕ → Links
  pub head : Option ℕ
  pub tail : Option ℕ

unfoldable pub set_links : (ℕ → Links) → ℕ → Links → ℕ → Links
set_links links thread new t = if t == thread then new else links t

-- `queue->tail->next = thread`, or `queue->head = thread` where there is no tail.
unfoldable pub link_last : (ℕ → Links) → (head tail : Option ℕ) → ℕ → Queue
link_last links head none thread = record { links = links; head = some thread; tail = some thread }
link_last links head (some last) thread = record {
  links = set_links links last (record { next = some thread; prev = (links last).prev });
  head = head;
  tail = some thread;
}

unfoldable pub push : Queue → ℕ → Queue
push q thread =
    link_last (set_links q.links thread (record { next = none; prev = q.tail })) q.head q.tail
      thread

-- `queue->head->prev = 0`, or `queue->tail = 0` where the queue is empty now; then the links of the
-- thread that was taken are cleared.
unfoldable pub unlink_first : (ℕ → Links) → (head tail : Option ℕ) → ℕ → Queue
unlink_first links none tail thread = record {
  links = set_links links thread (record { next = none; prev = none });
  head = none;
  tail = none;
}
unlink_first links (some first) tail thread = record {
  links =
      set_links (set_links links first (record { next = (links first).next; prev = none })) thread
        (record { next = none; prev = none });
  head = some first;
  tail = tail;
}

-- The thread with the links of the queue read first.
unfoldable pub pop_head : Queue → Option ℕ → Option ℕ × Queue
pop_head q none = (none, q)
pop_head q (some thread) = (some thread, unlink_first q.links (q.links thread).next q.tail thread)

unfoldable pub pop : Queue → Option ℕ × Queue
pop q = pop_head q q.head
