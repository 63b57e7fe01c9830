-- ===== src/Tests.antt =====
-- Runs of the model on concrete inputs, and the theorems at inputs that meet their hypotheses.
mod Sample
mod Buffers
mod Wires
mod Session
mod Arguments
mod Stdin
mod Typed
mod Opening
mod Tries
mod Closing
