-- ===== src/Gateway/EventLoop/Deaf.antt =====
-- The relay of Client Gateway/ClientServer.cpp behind a wait or a read that has failed.
use cerios_cluster.Common.{
  ℕ, suc, ◌≤◌, List, Bool, true, false, Option, none, some, ◌⊎◌, inl, inr, if◌then◌else◌, ◌≡◌, refl,
  arith,
}
use cerios_cluster.Common.Outcome.{ok}
use cerios_cluster.Gateway.Host.{Host}
use cerios_cluster.Gateway.EventLoop.{
  Gateway, on_accept, on_wait, Event, accept_ended, wait_ended, wait_thrown, client_moved, Later,
  now_still, later, Serving,
}
use cerios_cluster.Gateway.EventLoop.Accounts.{Serving-IsServing}

module _ (h : Host) where
  Event-deaf : {g g' : Gateway h} → Event h g g' → g.receiving ≡ 0 → g'.receiving ≡ 0
  unfolding on_accept
  Event-deaf (accept_ended native_handle is_loopback now stale_token error e) d = d
  Event-deaf (wait_ended fuel error read e r) d = absurd (omega (arith, e, d))
  Event-deaf (wait_thrown fuel datagram e r) d = absurd (omega (arith, e, d))
  Event-deaf (client_moved m c) d = d

  Later-deaf : {g g' : Gateway h} → g.receiving ≡ 0 → Later h g g' → g'.receiving ≡ 0
  Later-deaf d now_still = d
  Later-deaf d (later l e) = Event-deaf e (Later-deaf d l)

  one_wait :
      (n accepting : ℕ) (b : Bool) → suc n ≤ accepting → accepting ≡ (if b then 1 else 0) → n ≡ 0
  one_wait n accepting b w e = ground arith

  -- With its one wait gone, the relay is never given a datagram again.
  deaf_for_good :
      (g : Gateway h) (n : ℕ)
      → Serving h g
      → g.receiving ≡ suc n
      → (v : Gateway h) → Later h (record g { receiving = n }) v
      → v.receiving ≡ 0
  deaf_for_good g n s e v l =
      let facts = Serving-IsServing h g s in
      Later-deaf (one_wait n g.accepting g.has_relay (omega (arith, facts.waits, e)) facts.accepts)
        l

  -- A wait that fails, or a wait whose read fails, is the last one: its handler returns with the clients
  -- as they were, and in no later state is a wait outstanding, so the relay gets no message any more.
  pub on_wait-deaf :
      (g : Gateway h) (n fuel : ℕ) (error : Bool) (read : Option (List ℕ)) (v : Gateway h)
      → Serving h g
      → g.receiving ≡ suc n
      → (error ≡ true) ⊎ (read ≡ none)
      → Later h (record g { receiving = n }) v
      → (on_wait h fuel (record g { receiving = n }) error read ≡ ok (record g { receiving = n }))
        × (v.receiving ≡ 0)
  unfolding on_wait
  on_wait-deaf g n fuel true read v s e f l = (refl, deaf_for_good g n s e v l)
  on_wait-deaf g n fuel false none v s e f l = (refl, deaf_for_good g n s e v l)
  on_wait-deaf g n fuel false (some datagram) v s e f l =
      absurd (elim f [ inl p ↦ cc | inr p ↦ cc ])
