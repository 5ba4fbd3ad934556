-- ===== src/Tests/Routing.antt =====
-- The router of quiz_3 with messages to node 2.
use sp_hw.Base.{ℕ, ◌+◌, refl, All, arith, codes}
use sp_hw.Router.{Message, State, Reach, here, next, node_writes, router_reads, route, route_to}
use sp_hw.Router.Deliveries.{IsFromFirst, Reach-IsFromFirst}

abbrev to_second : ℕ → Message
to_second i = record { sender = i + 1; receiver = 2; buf = codes "hi" }

abbrev first_routed : (t : State) × Reach to_second t
unfolding route route_to
first_routed = (_, next (next here (node_writes 0 (omega arith) refl)) (router_reads refl refl))

Reach-IsFromFirst_example : All IsFromFirst (first_routed.0).delivered
Reach-IsFromFirst_example = Reach-IsFromFirst to_second (first_routed.0) (first_routed.1)
