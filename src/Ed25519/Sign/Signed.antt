-- ===== src/Ed25519/Sign/Signed.antt =====
-- What `crypto_sign` leaves: the two halves of the signature, and the message.
