-- ===== src/Lib.antt =====
-- zipologger writes log files, and encrypts their lines if it is given a key. This library models
-- the loggers with their encryption, the functions of the package around them, and the decrypter.
-- The repository also has the Go package internal/crypto/secp256k1 with a copy of the elliptic curve library
-- libsecp256k1, all of the C code of the repository. The program does not call it, as
-- signature_cgo.go_ is switched off in favour of signature_nocgo.go, and no result is about it.
--
-- The logger and its tools:
--   * Logger: logger.go and logger_enc.go. A `System` holds the fields of all loggers, the channel
--     tologCh, the files and the calls of print and Wait under way. `enter`, `add_task` and `send`
--     are the three stretches of print; `receive` and `write` are a round of the goroutine that init
--     starts, and Logger/Line has the line that it writes; `begin_wait`, `finish_tasks` and
--     `end_wait` are the three of Wait; `close` and `close_evicted` are what Close and the callback
--     for an evicted logger do behind it; the setters keep their names. In Logger/Run an `Event` names
--     a step, and a list of events is an interleaving. Logger/Count, Counted and Tasks are about the
--     counter logTasks; Logger/Ledger is the abstract view of one logger, a queue and a file, and
--     Logger/Moves and Refine relate the steps to it; Logger/Drain is about the written lines,
--     Logger/Ends about the end of a wait, Logger/Lifecycle and Closing about opening and closing
--     the file, Logger/Quiet and Stretches about steps in which no call begins and about those of
--     Wait, and Logger/Untouched about a logger on which nothing is printed.
--   * Registry: NewLogger of logger.go, from several callers at once: `look`, `lock`, `look_again`
--     and `create` are its double-checked locking, and `release` is the end of the callback for a
--     logger that the cache evicts. Registry/Invariant, Steps, Creation and Runs follow the loggers
--     through evictions; Registry/Held and Returns are about the mutex; Registry/Unique is about
--     programs whose file names fit the cache.
--   * Program: the loggers and the registry together, with the function Wait of the package:
--     `start_wait` takes the keys, `look_up` is the look for one of them, and `begin`, `finish` and
--     the last branch of `go_on` are the Wait of a logger. Program/Trace relates it to the steps of
--     Logger, Program/Waiting and Waited are about what holds until and when it returns, and
--     Program/Returns about its end.
--   * Entry: the functions of the package that print, the handlers of panics in logger.go, and
--     gost_compability.go; Entry/NoOp is about the loggers that write nowhere.
--   * Limited: LimitedPrintf of logger.go.
--   * Panic: savePanicToFile of logger.go.
--   * Position: formatCaller of logger.go, with the frames of runtime.Caller as an argument.
--   * Enc: enc/enc.go. What it takes from the packages crypto, ecies and strings is the record
--     `Packages`, and their documented behaviour the record `IsLawful`; Enc/Toy is an instance that
--     computes. The logger uses it for its keys and lines.
--   * Decrypter: decrypter/main.go. Decrypter/Log is about the lines of a log, and
--     Decrypter/Composed puts the logger and the decrypter together.
--   * Text: the functions of Go's standard library that these use: base64.RawStdEncoding,
--     encoding/hex, and bufio.Scanner with its limit of 64 KB.
--
-- A translation of the copy of libsecp256k1, another project's code, kept with its lemmas as a
-- supplement. The paths are below internal/crypto/secp256k1, with src for libsecp256k1/src:
--   * Scalar: src/scalar_4x64_impl.h. A `Scalar` is `secp256k1_scalar`; the functions keep the names
--     of the source without the prefix secp256k1_scalar_. Scalar/Value has the number that a scalar
--     stands for, Scalar/Sum addition and negation, Scalar/Bytes the 32-byte form. Scalar/Wide has
--     the 512-bit product and its reduction, built from the macros muladd, sumadd and extract.
--   * Scalar/Inverse: src/scalar_impl.h, secp256k1_scalar_inverse, cut into its ladder of powers
--     and three stretches of the chain.
--   * Der: src/ecdsa_impl.h, secp256k1_ecdsa_sig_parse and secp256k1_ecdsa_sig_serialize.
--   * Curve: the operations on field elements and points as an interface record, and what the
--     clients rely on as records of laws. Curve/Sample is an instance that computes.
--   * Ecdsa: src/ecdsa_impl.h, secp256k1_ecdsa_sig_sign and secp256k1_ecdsa_sig_verify, and
--     secp256k1_ecdsa_sign of src/secp256k1.c.
--   * Signature, Key and Pubkey: the objects of src/secp256k1.c and the functions of
--     src/eckey_impl.h below them.
--   * Recovery: src/modules/recovery/main_impl.h.
--   * Ext: ext.h, which uses all of the above.
--   * Base: lists and tests over the native numbers, the casts of C, bits and bytes.
--
-- Conventions. A machine word is a natural number with the wrap-around written out. A function
-- that writes through pointers returns what it leaves there beside what it returns; an `int` that
-- is 0 or 1 is a `Bool`, and a result that the caller does not see on failure is an `Option`.
-- Pointers are not NULL, and the context is built for signing and verifying, as ext.h builds it.
-- The model follows the build that cgo makes: four 64-bit limbs with a 128-bit type, no assembly,
-- VERIFY not defined. Memory that the C code clears after use is not part of the model.
--
-- Fuel. The loop of secp256k1_ecdsa_sign over nonces runs on fuel, since nothing in the code bounds
-- it; how much is enough depends on the nonce function, and Ecdsa.Result says how. The scanner in
-- Text/Lines runs on one unit of fuel for each byte, which is enough as a line takes at least one.
-- All other loops are structural recursions.
--
-- Not modelled. The copy of libsecp256k1, as another project's library: in the supplement the field
-- elements and points are the parameters in Curve, the nonce function of RFC 6979 is an argument as
-- in the source, and contexts and their memory are left out. Of the Go code the packages below internal, copies of code of
-- go-ethereum, the caches, the rotation of files and the catcher of errors, which are other
-- packages, and of logger.go Fatalf, which is a printf, a Wait and a panic. Loggers, callers, file
-- names and ids of limited prints are numbers, and a time is a number of nanoseconds. The opening of
-- a file, the write of a line and its Done are one step. Close and the callback for an evicted logger
-- are steps of their own behind a Wait, which need not have waited, as Wait returns at once if another
-- one is under way. fmt, the clock, the stack and what recover gives are arguments.
pub mod Base
pub mod Text
pub mod Enc
pub mod Decrypter
pub mod Logger
pub mod Limited
pub mod Registry
pub mod Program
pub mod Entry
pub mod Panic
pub mod Position
pub mod Scalar
pub mod Der
pub mod Curve
pub mod Signature
pub mod Key
pub mod Ecdsa
pub mod Pubkey
pub mod Recovery
pub mod Ext
