-- ===== src/Tests.antt =====
-- Stand-ins for the libraries that the program calls, runs of the model on small inputs, and each
-- theorem that has a hypothesis at an input that meets it.
mod Doubles
mod Memory
mod Frames
mod Peers
mod Database
mod Queries
mod Pipelines
mod Schedules
mod Interleavings
mod Numbers
mod Requests
mod Histories
mod Shown
mod Deliveries
mod Listings
mod Starts
