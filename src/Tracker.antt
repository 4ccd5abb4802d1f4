-- ===== src/Tracker.antt =====
-- eibc/order_tracker.go: the orders that are known, the LPs that can pay for them, and what may go
-- to the fulfillers. `State` has the record; `Selection` finds an LP for an order; `Validation`
-- asks the full nodes and sends valid orders on; the other children prove.
pub mod State
pub mod Selection
pub mod Validation
pub mod Grants
pub mod Intake
