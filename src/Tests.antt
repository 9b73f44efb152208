-- ===== src/Tests.antt =====
-- Runs of the model at concrete inputs, over a small stand-in for the JavaScript runtime.
mod Toy
mod Decisions
mod Tokens
mod Serving
mod Settling
mod Assessing
mod Inspecting
mod Rendering
mod Masking
mod Uploads
mod Cards
