-- ===== src/Binding.antt =====
-- binding_v2.py, the binding engine: which instance an unbound entry holds, for human review, and
-- how the members of a tool set stand against a machine's table.
pub mod Proposals
pub mod Reconcile
pub mod Bridge
pub mod Machine
