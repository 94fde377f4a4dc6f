-- ===== src/Services/Gateway/Replicas.antt =====
-- src/llm_gateway/services/gateway.py: a replica that finds the lock taken.
