-- ===== src/Examples.antt =====
-- The theorems at a small conference (Data), one file for each part of the API.
mod Data
mod Access
mod Sessions
mod Calls
mod Web
mod Requests
mod Assistant
mod Races
mod Dataset
mod Reseeding
