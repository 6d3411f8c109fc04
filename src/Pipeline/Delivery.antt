-- ===== src/Pipeline/Delivery.antt =====
-- What a delivery report does to the outbox.
