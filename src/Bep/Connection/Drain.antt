-- ===== src/Bep/Connection/Drain.antt =====
-- A response of the peer in bepository-bep/src/connection.rs: the queue of the requests that wait is
-- drained, and the loop that does so ends.
use bepository.Prelude.{
  ℕ, zero, suc, ◌≤◌, ◌<◌, ◌≡◌, ◌⊎◌, inl, inr, refl, ◌-◌, arith, Bool, true, false, Option, none,
  some, List, [], ◌∷◌, Result, ok, err, length, Bool-cases,
}
use bepository.Prelude.Int.{eq_ℤ}
use bepository.Bep.Errors.{BepError}
use bepository.Bep.Messages.{Response, no_error}
use bepository.Bep.Calls.{Backend, Call, ◌>>?◌}
use bepository.Bep.Calls.Logic.{
  Event, called, sent, told, History, Ensures, OkOr, Ensures->>?, Ensures-map,
}
use bepository.Bep.Connection.{
  FileBlock, DeferredRequest, ConnectionInner, ConnectionContext, retry, is_full, register, find_id,
  front, behind, next_deferred, take_deferred, after_reuse, drain_one, drain_round, drain_deferred,
  remove_request, store_response, finish, drain_and_finish, handle_response,
}
use bepository.Bep.Connection.Pipeline.{
  IsReady, Keeps, Keeps-refl, Adds, register-Adds, register-Keeps, take_deferred-Keeps,
  remove_request-Keeps, next_deferred-eq-none,
}
use bepository.Bep.Connection.Rules.{
  Rules, Ends, Goes, retry-Goes, >>?-Goes, complete_and_notify-Goes, submit_or_defer_block-Goes,
}
use bepository.Bep.Connection.Index.Cursor.{IsSized, Keeps-IsSized, has_id}

module _ {B : Backend} where
  abbrev pub Anything : History B → Call B → Type 0
  Anything h c = Unit {0}

  -- A shutdown was requested.
  abbrev pub Stopped : History B → Type 0
  Stopped [] = ⊥
  Stopped (told true ∷ h) = Unit {0}
  Stopped (e ∷ h) = Stopped h

  abbrev Always : History B → Type 0
  Always h = Unit {0}

  -- No more than `n` requests wait, unless there is no room.
  record HasAtMost (n : ℕ) (conn : ConnectionInner B) : Type 0 where
    sized : IsSized conn
    few : (is_full conn ≡ true) ⊎ (length conn.deferred_blocks ≤ n)

  abbrev IsSizedAndReady : ConnectionInner B → Type 0
  IsSizedAndReady conn = IsSized conn × IsReady conn

  HasAtMost-Adds :
      {n : ℕ} {s now : ConnectionInner B} → HasAtMost n s → Adds s now → HasAtMost n now
  HasAtMost-Adds {n} {s} {now} a adds = record {
    sized = Keeps-IsSized a.sized adds.keeps;
    few = fewer a.few adds.queue;
  }
    where
      fewer :
          (is_full s ≡ true) ⊎ (length s.deferred_blocks ≤ n)
          → (is_full now ≡ true) ⊎ (length now.deferred_blocks ≤ length s.deferred_blocks)
          → (is_full now ≡ true) ⊎ (length now.deferred_blocks ≤ n)
      fewer (inl busy) _ = inl (adds.stays_full busy)
      fewer (inr short) (inl busy) = inl busy
      fewer (inr short) (inr shorter) = inr (omega arith)

  -- The rules of the message task: the index task only adds requests.
  message_rules :
      (J : History B → Type 0) (K : ConnectionInner B → Type 0)
      → ((h : History B) (e : Event B) → J h → J (e ∷ h))
      → ((s now : ConnectionInner B) → K s → Adds s now → K now)
      → ((s : ConnectionInner B) → K s → IsSized s)
      → Rules Anything Adds Keeps ⊥ J K
  message_rules J K more stable sized = record {
    told_ok = λ h b j. more h (told b) j;
    sent_ok = λ h m r j. more h (sent m r) j;
    may = λ h c plain j. tt;
    call_ok = λ h c r plain j. more h (called c r) j;
    stable = stable;
    kept = λ now. Keeps-refl now;
    added = register-Keeps;
    added_ok = λ block size block_no now k.
        stable now (register block size block_no now) k (register-Adds block size block_no now);
    runs_out = λ now k room e. has_id ⊥ now (sized now k) e;
  }

  Stopped-cons : (h : History B) (e : Event B) → Stopped h → Stopped (e ∷ h)
  Stopped-cons h (told true) stopped = tt
  Stopped-cons h (told false) stopped = stopped
  Stopped-cons h (called c r) stopped = stopped
  Stopped-cons h (sent m r) stopped = stopped

  at_most_rules : (n : ℕ) → Rules Anything Adds Keeps ⊥ Always (HasAtMost n)
  at_most_rules n =
      message_rules Always (HasAtMost n) (λ h e j. tt) (λ s now a adds. HasAtMost-Adds a adds)
        (λ s a. a.sized)

  front_longer :
      (l : List (DeferredRequest B)) (d : DeferredRequest B)
      → front l ≡ some d
      → length l ≡ suc (length (behind l))
  front_longer [] d e = cc
  front_longer (x ∷ l) d e = refl

  -- Taking a request from the queue leaves one less.
  take_deferred-HasAtMost :
      (n : ℕ) (conn : ConnectionInner B) (d : DeferredRequest B)
      → HasAtMost n conn
      → next_deferred conn ≡ some d
      → (m : ℕ) × (n ≡ suc m) × HasAtMost m (take_deferred conn)
  unfolding next_deferred take_deferred
  take_deferred-HasAtMost n conn d a e = elim (Bool-cases (is_full conn)) [
    | inl busy ↦ absurd (nothing (rw busy at e))
    | inr room ↦
        let shorter = front_longer conn.deferred_blocks d (rw room at e) in
        rw room (
          n - 1,
          omega (arith, shorter, short room a.few),
          record {
            sized = Keeps-IsSized a.sized (rest_kept);
            few = inr (omega (arith, shorter, short room a.few));
          },
        )
  ]
    where
      nothing : none ≡ some d → ⊥
      nothing h = cc

      short :
          is_full conn ≡ false
          → (is_full conn ≡ true) ⊎ (length conn.deferred_blocks ≤ n)
          → length conn.deferred_blocks ≤ n
      short room (inl busy) = cc
      short room (inr l) = l

      rest_kept : Keeps conn (record conn { deferred_blocks = behind conn.deferred_blocks })
      rest_kept = record {
        same_max = refl;
        sound = λ s. record { bounded = s.bounded; distinct = s.distinct; counter = s.counter };
      }

  -- What draining the queue ends with, unless there is an error: no request waits where there is room
  -- for it, or a shutdown was requested.
  abbrev pub Drained : History B → ConnectionInner B → Result BepError (Unit {0}) → Type 0
  Drained h s r =
      OkOr (λ h' s' a. IsSized s' × (IsReady s' ⊎ Stopped h')) (λ h' s' e. Unit {0}) h s r

  module _ (ctx : ConnectionContext) where
    reuse-Goes :
        (m : ℕ) (d : DeferredRequest B) (h : History B) (s : ConnectionInner B) (reused : Bool)
        → HasAtMost m s
        → Goes Anything Adds Keeps ⊥ Always (HasAtMost m) h s (after_reuse ctx d reused)
    reuse-Goes m d h s true a =
        complete_and_notify-Goes (at_most_rules m) d.block.handle d.block.name d.block.version ctx h
          s tt a
    reuse-Goes m d h s false a =
        submit_or_defer_block-Goes (at_most_rules m) d.block d.size d.block_no h s tt a

    -- The loop over the queue ends within a round for each request that waits and one more.
    drain_deferred-Drained :
        (fuel n : ℕ) (h : History B) (s : ConnectionInner B)
        → n < fuel
        → HasAtMost n s
        → Ensures Anything Adds Keeps ⊥ Drained h s (drain_deferred ctx fuel)
    unfolding drain_deferred
    drain_deferred-Drained zero n h s enough a = absurd (omega arith)
    drain_deferred-Drained (suc fuel) n h s enough a =
        asked (λ m below h' s' a'. drain_deferred-Drained fuel m h' s' below a')
      where
        Later : Type 0
        Later =
            (m : ℕ)
            → m < fuel
            → (h' : History B) (s' : ConnectionInner B) → HasAtMost m s'
            → Ensures Anything Adds Keeps ⊥ Drained h' s' (drain_deferred ctx fuel)

        one :
            Later
            → (now : ConnectionInner B) (o : Option (DeferredRequest B)) → HasAtMost n now
            → next_deferred now ≡ o
            → Ensures Anything Adds Keeps ⊥ Drained
                (told false ∷ h)
                (take_deferred now)
                (drain_one ctx (drain_deferred ctx fuel) o)
        one next now none a' e =
            (Keeps-IsSized a'.sized (take_deferred-Keeps now), inl (next_deferred-eq-none now e))
        one next now (some d) a' e =
            let less = take_deferred-HasAtMost n now d a' e in
            let reuse =
              Call.reuse_block d.block.handle d.block.name d.block.offset d.block.hash d.size in
            Ensures->>? Anything Adds Keeps ⊥ (λ h' s' _. Always h' × HasAtMost less.0 s')
              (λ h' s' _. Unit {0}) Drained (λ _. drain_deferred ctx fuel)
              (λ h' s' _ both. next less.0 (omega (arith, less.1)) h' s' both.1) (λ h' s' _ _. tt)
              (told false ∷ h) (take_deferred now) (retry ctx reuse >>? after_reuse ctx d)
              (>>?-Goes (at_most_rules less.0) (retry ctx reuse) (after_reuse ctx d)
                (told false ∷ h) (take_deferred now)
                (retry-Goes (at_most_rules less.0) ctx reuse (told false ∷ h) (take_deferred now) tt
                  tt less.2)
                (λ h' s' reused _ a''. reuse-Goes less.0 d h' s' reused a''))

        asked :
            Later
            → (b : Bool)
            → Ensures Anything Adds Keeps ⊥ Drained
                (told b ∷ h)
                s
                (drain_round ctx (drain_deferred ctx fuel) b)
        asked next true = (a.sized, inr tt)
        asked next false = λ now adds.
            (take_deferred-Keeps now, one next now (next_deferred now) (HasAtMost-Adds a adds) refl)

    finish-Goes :
        (J : History B → Type 0) (K : ConnectionInner B → Type 0)
        → Rules Anything Adds Keeps ⊥ J K
        → (completed : Option (FileBlock B)) (h : History B) (s : ConnectionInner B) → J h
        → K s
        → Goes Anything Adds Keeps ⊥ J K h s (finish ctx completed)
    finish-Goes J K rules none h s j k = (j, k)
    finish-Goes J K rules (some block) h s j k =
        complete_and_notify-Goes rules block.handle block.name block.version ctx h s j k

    finish-Drained :
        (completed : Option (FileBlock B)) (h : History B) (s : ConnectionInner B)
        → IsSized s
        → IsReady s ⊎ Stopped h
        → Ensures Anything Adds Keeps ⊥ Drained h s (finish ctx completed)
    finish-Drained completed h s z (inl ready) =
        Ensures-map Anything Adds Keeps ⊥ (Ends Always IsSizedAndReady) Drained
          (λ h' s' r e. weaken h' s' r e) h s (finish ctx completed)
          (finish-Goes Always IsSizedAndReady rules completed h s tt (z, ready))
      where
        rules : Rules Anything Adds Keeps ⊥ Always IsSizedAndReady
        rules =
            message_rules Always IsSizedAndReady (λ h' e j. tt)
              (λ s' now k adds. (Keeps-IsSized k.0 adds.keeps, adds.ready k.1)) (λ s' k. k.0)

        weaken :
            (h' : History B) (s' : ConnectionInner B) (r : Result BepError (Unit {0}))
            → Ends Always IsSizedAndReady h' s' r
            → Drained h' s' r
        weaken h' s' (ok _) e = (e.1.0, inl e.1.1)
        weaken h' s' (err _) e = tt
    finish-Drained completed h s z (inr stopped) =
        Ensures-map Anything Adds Keeps ⊥ (Ends Stopped IsSized) Drained
          (λ h' s' r e. weaken h' s' r e) h s (finish ctx completed)
          (finish-Goes Stopped IsSized rules completed h s stopped z)
      where
        rules : Rules Anything Adds Keeps ⊥ Stopped IsSized
        rules =
            message_rules Stopped IsSized Stopped-cons (λ s' now k adds. Keeps-IsSized k adds.keeps)
              (λ s' k. k)

        weaken :
            (h' : History B) (s' : ConnectionInner B) (r : Result BepError (Unit {0}))
            → Ends Stopped IsSized h' s' r
            → Drained h' s' r
        weaken h' s' (ok _) e = (e.1, inr e.0)
        weaken h' s' (err _) e = tt

    drain_and_finish-Drained :
        (waiting : List (DeferredRequest B)) (completed : Option (FileBlock B)) (h : History B)
        (s : ConnectionInner B)
        → HasAtMost (length waiting) s
        → Ensures Anything Adds Keeps ⊥ Drained h s (drain_and_finish ctx waiting completed)
    drain_and_finish-Drained waiting completed h s a =
        Ensures->>? Anything Adds Keeps ⊥ (λ h' s' _. IsSized s' × (IsReady s' ⊎ Stopped h'))
          (λ h' s' _. Unit {0}) Drained (λ _. finish ctx completed)
          (λ h' s' _ both. finish-Drained completed h' s' both.0 both.1) (λ h' s' _ _. tt) h s
          (drain_deferred ctx (suc (length waiting)))
          (drain_deferred-Drained (suc (length waiting)) (length waiting) h s (omega arith) a)

    store_response-Goes :
        (n : ℕ) (response : Response) (o : Option (FileBlock B)) (h : History B)
        (s : ConnectionInner B)
        → HasAtMost n s
        → Goes Anything Adds Keeps ⊥ Always (HasAtMost n) h s (store_response ctx response o)
    store_response-Goes n response none h s a = (tt, a)
    store_response-Goes n response (some block) h s a =
        elim (Bool-cases (eq_ℤ response.code no_error)) [
          | inl fine ↦ rw fine (
              >>?-Goes (at_most_rules n) (retry ctx store) _ h s
                (retry-Goes (at_most_rules n) ctx store h s tt tt a) (λ h' s' _ j k. (j, k)))
          | inr refused ↦ rw refused tt
        ]
      where
        store : Call B
        store = Call.store_block block.handle block.name block.offset block.hash response.content

    -- A response of the peer, while the index task goes on adding requests, and whatever the storage
    -- answers: unless it fails or a shutdown was requested, no request waits afterwards where there is
    -- room for it. Every access keeps the requests in flight within their bound and apart. The
    -- response always ends.
    pub handle_response-Drained :
        (response : Response) (s : ConnectionInner B)
        → IsSized s
        → Ensures Anything Adds Keeps ⊥ Drained [] s (handle_response ctx response)
    unfolding handle_response
    handle_response-Drained response s z now adds =
        let z' =
          Keeps-IsSized (Keeps-IsSized z adds.keeps) (remove_request-Keeps response.id now) in
        let o = find_id response.id now.pending_requests in
        let removed = remove_request response.id now in
        (
          remove_request-Keeps response.id now,
          Ensures->>? Anything Adds Keeps ⊥
              (λ h' s' _. Always h' × HasAtMost (length now.deferred_blocks) s')
              (λ h' s' _. Unit {0}) Drained (drain_and_finish ctx now.deferred_blocks)
              (λ h' s' completed both.
                drain_and_finish-Drained now.deferred_blocks completed h' s' both.1)
              (λ h' s' _ _. tt) [] removed (store_response ctx response o)
              (store_response-Goes (length now.deferred_blocks) response o [] removed
                (record { sized = z'; few = inr (omega arith) })),
        )
