-- ===== src/Auth.antt =====
-- One-time passwords and sessions of the authentication service (src/microservices/auth-service).
mod Response
mod Otp
mod Guesses
mod Single
mod Sent
mod Waiting
mod Sessions
mod Devices
mod Revoked
mod Tests
mod SessionTests
