-- ===== src/Namespaces/Ownership.antt =====
-- What `transfer_namespace` (capmesh/namespace_owners.py) changes.
