-- ===== src/Tests.antt =====
-- Examples of the gateway's properties at concrete inputs, on small implementations of the libraries
-- that it uses.
mod Libraries
mod Setting
mod Routing
mod Forwarding
mod Layers
mod Requests
mod Storage
mod Backends
mod Discoveries
mod Building
mod Serving
mod Safety
mod Overlapping
mod Exporting
mod Starting
