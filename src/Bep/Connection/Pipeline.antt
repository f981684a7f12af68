-- ===== src/Bep/Connection/Pipeline.antt =====
-- The sections under the lock of bepository-bep/src/connection.rs, and what each keeps of the table of
-- requests in flight and of the queue of those that wait.
use bepository.Prelude.{
  ◌∙◌, ℕ, ◌≤◌, ◌<◌, ◌≡◌, ◌≢◌, ◌⊎◌, inl, inr, refl, arith, true, false, Option, none, some, List, [],
  ◌∷◌, length, Bool-cases, u32_mod,
}
use bepository.Prelude.Int.{ℤ}
use bepository.Bep.Calls.{Backend}
use bepository.Bep.Connection.{
  FileBlock, DeferredRequest, ConnectionInner, find_id, insert_id, contains_id, next_request_id,
  is_full, deferring, with_request, register, next_deferred, take_deferred, front, behind,
  remove_request,
}
use bepository.Bep.Connection.Ids.{
  IsDistinct, remove_id-IsDistinct, insert_id-IsDistinct, length-remove_le, find-insert_self,
  find-insert_other, first_free_total,
}

module _ {B : Backend} where
  -- The requests in flight are no more than allowed, and no two have the same id; the counter is a
  -- 32-bit number.
  pub record IsSound (conn : ConnectionInner B) : Type 0 where
    pub bounded : length conn.pending_requests ≤ conn.max_pending_requests
    pub distinct : IsDistinct conn.pending_requests
    pub counter : conn.next_id < u32_mod

  -- No request waits while there is room for it.
  pub data IsReady (conn : ConnectionInner B) : Type 0 where
    full : is_full conn ≡ true → IsReady conn
    none_waits : conn.deferred_blocks ≡ [] → IsReady conn

  -- What each access keeps to.
  pub record Keeps (conn conn' : ConnectionInner B) : Type 0 where
    pub same_max : conn'.max_pending_requests ≡ conn.max_pending_requests
    pub sound : IsSound conn → IsSound conn'

  pub Keeps-refl : (conn : ConnectionInner B) → Keeps conn conn
  Keeps-refl conn = record { same_max = refl; sound = λ s. s }

  -- `register` lets no more requests into flight than allowed, and gives each its own id.
  pub register-Keeps :
      (block : FileBlock B) (size : ℤ) (block_no : ℕ) (conn : ConnectionInner B)
      → Keeps conn (register block size block_no conn)
  unfolding register is_full insert_id
  register-Keeps block size block_no conn = elim (Bool-cases (is_full conn)) [
    | inl busy ↦ rw busy (record {
      same_max = refl;
      sound = λ s. record { bounded = s.bounded; distinct = s.distinct; counter = s.counter };
    })
    | inr room ↦ rw room (room_kept (next_request_id conn) room)
  ]
    where
      room_kept : (o : Option ℕ) → is_full conn ≡ false → Keeps conn (with_request block conn o)
      room_kept none room = Keeps-refl conn
      room_kept (some id) room = record {
        same_max = refl;
        sound = λ s. record {
          bounded = ground (arith, length-remove_le id conn.pending_requests);
          distinct = insert_id-IsDistinct id block conn.pending_requests s.distinct;
          counter = omega arith;
        };
      }

  queue_empty :
      (conn : ConnectionInner B) → is_full conn ≡ false → IsReady conn → conn.deferred_blocks ≡ []
  queue_empty conn room (full busy) = cc
  queue_empty conn room (none_waits e) = e

  front-eq-none : (l : List (DeferredRequest B)) → front l ≡ none → l ≡ []
  front-eq-none [] h = refl
  front-eq-none (d ∷ l) h = cc

  behind_empty : (l : List (DeferredRequest B)) → l ≡ [] → behind l ≡ []
  behind_empty [] h = refl
  behind_empty (d ∷ l) h = cc

  pub register-IsReady :
      (block : FileBlock B) (size : ℤ) (block_no : ℕ) (conn : ConnectionInner B)
      → IsReady conn
      → IsReady (register block size block_no conn)
  unfolding register is_full
  register-IsReady block size block_no conn ready = elim (Bool-cases (is_full conn)) [
    | inl busy ↦ rw busy (full busy)
    | inr room ↦ rw room (still (next_request_id conn) (queue_empty conn room ready))
  ]
    where
      still : (o : Option ℕ) → conn.deferred_blocks ≡ [] → IsReady (with_request block conn o)
      still none e = none_waits e
      still (some id) e = none_waits e

  pub take_deferred-Keeps : (conn : ConnectionInner B) → Keeps conn (take_deferred conn)
  unfolding take_deferred
  take_deferred-Keeps conn = elim (Bool-cases (is_full conn)) [
    | inl busy ↦ rw busy (Keeps-refl conn)
    | inr room ↦ rw room (record {
      same_max = refl;
      sound = λ s. record { bounded = s.bounded; distinct = s.distinct; counter = s.counter };
    })
  ]

  pub remove_request-Keeps :
      (id : ℕ) (conn : ConnectionInner B) → Keeps conn (remove_request id conn)
  remove_request-Keeps id conn = record {
    same_max = refl;
    sound = λ s. record {
      bounded = omega (arith, length-remove_le id conn.pending_requests, s.bounded);
      distinct = remove_id-IsDistinct id conn.pending_requests s.distinct;
      counter = s.counter;
    };
  }

  -- Where nothing is taken from the queue, nothing that waits could go.
  pub next_deferred-eq-none :
      (conn : ConnectionInner B) → next_deferred conn ≡ none → IsReady (take_deferred conn)
  unfolding next_deferred take_deferred is_full
  next_deferred-eq-none conn h = elim (Bool-cases (is_full conn)) [
    | inl busy ↦ rw busy (full busy)
    | inr room ↦
        rw room (none_waits (behind_empty _ (front-eq-none conn.deferred_blocks (rw room at h))))
  ]

  -- What the access of a task that only adds requests keeps to, besides: what waits has no room, and
  -- nothing is added to the queue unless there is no room.
  pub record Adds (conn conn' : ConnectionInner B) : Type 0 where
    pub keeps : Keeps conn conn'
    pub ready : IsReady conn → IsReady conn'
    pub stays_full : is_full conn ≡ true → is_full conn' ≡ true
    pub queue :
        (is_full conn' ≡ true) ⊎ (length conn'.deferred_blocks ≤ length conn.deferred_blocks)

  pub Adds-refl : (conn : ConnectionInner B) → Adds conn conn
  Adds-refl conn = record {
    keeps = Keeps-refl conn;
    ready = λ r. r;
    stays_full = λ f. f;
    queue = inr (omega arith);
  }

  register_queue :
      (block : FileBlock B) (size : ℤ) (block_no : ℕ) (conn : ConnectionInner B)
      → (is_full conn ≡ true → is_full (register block size block_no conn) ≡ true)
        × ((is_full (register block size block_no conn) ≡ true)
            ⊎ (length (register block size block_no conn).deferred_blocks
                ≤ length conn.deferred_blocks))
  unfolding register is_full
  register_queue block size block_no conn = elim (Bool-cases (is_full conn)) [
    | inl busy ↦ rw busy (λ f. busy, inl busy)
    | inr room ↦ rw room (λ f. absurd (busy_room f), inr (same (next_request_id conn)))
  ]
    where
      busy_room : false ≡ true → ⊥
      busy_room h = cc

      same :
          (o : Option ℕ)
          → length (with_request block conn o).deferred_blocks ≤ length conn.deferred_blocks
      same none = omega arith
      same (some id) = omega arith

  pub register-Adds :
      (block : FileBlock B) (size : ℤ) (block_no : ℕ) (conn : ConnectionInner B)
      → Adds conn (register block size block_no conn)
  register-Adds block size block_no conn =
      let queue = register_queue block size block_no conn in
      record {
        keeps = register-Keeps block size block_no conn;
        ready = register-IsReady block size block_no conn;
        stays_full = queue.0;
        queue = queue.1;
      }

  -- With room for a request there is an id for it.
  pub next_request_id_total :
      (conn : ConnectionInner B)
      → IsSound conn
      → conn.max_pending_requests < u32_mod
      → (id : ℕ) × (next_request_id conn ≡ some id) × (contains_id id conn.pending_requests ≡ false)
  unfolding next_request_id
  next_request_id_total conn s small =
      first_free_total conn.pending_requests conn.next_id s.counter (omega (arith, s.bounded))

  -- What `register` may do: the request waits behind the others, and nothing else changes, or it gets
  -- an id that no request in flight has and is found under it, and the others are found as before.
  pub data Registers (block : FileBlock B) (size : ℤ) (block_no : ℕ)
      (conn conn' : ConnectionInner B) : Type 0 where
    waits :
        conn.max_pending_requests ≤ length conn.pending_requests
        → conn' ≡ deferring block size block_no conn
        → Registers block size block_no conn conn'
    goes :
        (id : ℕ)
        → length conn.pending_requests < conn.max_pending_requests
        → length conn'.pending_requests ≤ conn.max_pending_requests
        → next_request_id conn ≡ some id
        → contains_id id conn.pending_requests ≡ false
        → find_id id conn'.pending_requests ≡ some block
        → ((other : ℕ)
            → other ≢ id
            → find_id other conn'.pending_requests ≡ find_id other conn.pending_requests)
        → conn'.deferred_blocks ≡ conn.deferred_blocks
        → Registers block size block_no conn conn'

  -- A request is put into the table of those in flight exactly if they are fewer than allowed, under an
  -- id that none of them has, and they are no more than allowed afterwards; the table finds its block
  -- under that id, and the others as before, and the queue stays. Otherwise the request waits behind the
  -- others, and nothing else changes. The requests in flight must be no more than allowed before, with
  -- ids of their own, and fewer than ids.
  pub register-Registers :
      (block : FileBlock B) (size : ℤ) (block_no : ℕ) (conn : ConnectionInner B)
      → IsSound conn
      → conn.max_pending_requests < u32_mod
      → Registers block size block_no conn (register block size block_no conn)
  unfolding register is_full
  register-Registers block size block_no conn s small = elim (Bool-cases (is_full conn)) [
    | inl busy ↦ rw busy (waits (ground (arith, busy)) refl)
    | inr room ↦
        let free = next_request_id_total conn s small in
        rw (room, free.1) (registered (ground (arith, room)) free.0 free.1 free.2)
  ]
    where
      registered :
          length conn.pending_requests < conn.max_pending_requests
          → (id : ℕ) → next_request_id conn ≡ some id
          → contains_id id conn.pending_requests ≡ false
          → Registers block size block_no conn (with_request block conn (some id))
      registered room id e free =
          goes id room (omega (arith, length-remove_le id conn.pending_requests)) e free
            (find-insert_self id block conn.pending_requests)
            (λ other apart. find-insert_other id other block conn.pending_requests apart) refl

  pub Keeps-trans : {a b c : ConnectionInner B} → Keeps a b → Keeps b c → Keeps a c
  Keeps-trans p q = record { same_max = q.same_max ∙ p.same_max; sound = λ s. q.sound (p.sound s) }

  pub Adds-trans : {a b c : ConnectionInner B} → Adds a b → Adds b c → Adds a c
  Adds-trans {a} {b} {c} p q = record {
    keeps = Keeps-trans p.keeps q.keeps;
    ready = λ r. q.ready (p.ready r);
    stays_full = λ f. q.stays_full (p.stays_full f);
    queue = both p.queue q.queue;
  }
    where
      both :
          (is_full b ≡ true) ⊎ (length b.deferred_blocks ≤ length a.deferred_blocks)
          → (is_full c ≡ true) ⊎ (length c.deferred_blocks ≤ length b.deferred_blocks)
          → (is_full c ≡ true) ⊎ (length c.deferred_blocks ≤ length a.deferred_blocks)
      both _ (inl full_c) = inl full_c
      both (inl full_b) (inr _) = inl (q.stays_full full_b)
      both (inr shorter) (inr short) = inr (omega arith)
