-- ===== src/Worker/Status.antt =====
-- Which status a host has, before and after each request.
use distributed_math_arh.Prelude.{
  String, ◌≡◌, Option, some, none, arith, string_eq, ◌==◌, if◌then◌else◌,
}
use distributed_math_arh.Prelude.Dict.{contains, lookup-insert}
use distributed_math_arh.Worker.{
  WorkerService, NodeStatus, active, inactive, fresh_node, add_new_node,
}

-- The status of a host in the cluster, none if it is unknown.
abbrev pub status_of : WorkerService → String → Option NodeStatus
status_of s h =
    if contains h s.active_nodes
    then some active
    else if contains h s.inactive_nodes
    then some inactive
    else none

module _ (s : WorkerService) (host h : String) where
  -- A host that is new to the cluster becomes inactive; every other host, and a known one, keeps its status.
  pub add_new_node-status : status_of (add_new_node s host).0 h ≡ (
      if host == h
      then (if contains host s.active_nodes then some active else some inactive)
      else status_of s h)
  unfolding add_new_node
  add_new_node-status =
      ground
        (arith, string_eq.beq_iff host h, lookup-insert host h (fresh_node host) s.inactive_nodes)
