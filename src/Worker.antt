-- ===== src/Worker.antt =====
-- worker/: the `normalize` job, the reconcile at boot and the daily pruning.
pub mod Normalize
pub mod Reconcile
